-- ===== src/Celestial/Galaxies.antt =====
-- The table of galaxies in apps/web/src/core/lib/celestial.ts.
use agentgrove.Base.{List, [], codes, ◌∷◌}
use agentgrove.Celestial.Bodies.{CelestialBody, body, galaxy}

unfoldable pub galaxies : List CelestialBody
galaxies =
    body (codes "Andromeda") galaxy
    ∷ body (codes "Triangulum") galaxy
    ∷ body (codes "Whirlpool") galaxy
    ∷ body (codes "Sombrero") galaxy
    ∷ body (codes "Pinwheel") galaxy
    ∷ body (codes "Cartwheel") galaxy
    ∷ body (codes "Cigar") galaxy
    ∷ body (codes "Bode") galaxy
    ∷ body (codes "Sunflower") galaxy
    ∷ body (codes "Tadpole") galaxy
    ∷ body (codes "Coma") galaxy
    ∷ body (codes "Centaurus") galaxy
    ∷ body (codes "Perseus") galaxy
    ∷ body (codes "Virgo") galaxy
    ∷ body (codes "Hydra") galaxy
    ∷ body (codes "Leo") galaxy
    ∷ body (codes "Fornax") galaxy
    ∷ body (codes "Antennae") galaxy
    ∷ body (codes "Butterfly") galaxy
    ∷ body (codes "Mice") galaxy
    ∷ body (codes "Needle") galaxy
    ∷ body (codes "Black Eye") galaxy
    ∷ body (codes "Silver Coin") galaxy
    ∷ body (codes "Sculptor") galaxy
    ∷ body (codes "Cetus") galaxy
    ∷ body (codes "Sombrero Twin") galaxy
    ∷ body (codes "Sunburst") galaxy
    ∷ body (codes "Comet") galaxy
    ∷ body (codes "Hoag") galaxy
    ∷ body (codes "Spindle") galaxy
    ∷ body (codes "Southern Pinwheel") galaxy
    ∷ body (codes "Little Sombrero") galaxy
    ∷ body (codes "Meathook") galaxy
    ∷ body (codes "Grand Design") galaxy
    ∷ body (codes "Fireworks") galaxy
    ∷ body (codes "Hockey Stick") galaxy
    ∷ body (codes "Whale") galaxy
    ∷ body (codes "Cocoon") galaxy
    ∷ body (codes "Sculptor Dwarf") galaxy
    ∷ body (codes "Draco Dwarf") galaxy
    ∷ body (codes "Carina Dwarf") galaxy
    ∷ body (codes "Fornax Dwarf") galaxy
    ∷ body (codes "Sextans") galaxy
    ∷ body (codes "Sagittarius Dwarf") galaxy
    ∷ body (codes "Large Magellanic") galaxy
    ∷ body (codes "Small Magellanic") galaxy
    ∷ body (codes "Wolf-Lundmark") galaxy
    ∷ body (codes "Barnard") galaxy
    ∷ body (codes "Phoenix Dwarf") galaxy
    ∷ body (codes "Pegasus Dwarf") galaxy
    ∷ body (codes "Aquarius Dwarf") galaxy
    ∷ body (codes "Tucana Dwarf") galaxy
    ∷ body (codes "Circinus") galaxy
    ∷ body (codes "Maffei") galaxy
    ∷ body (codes "Dwingeloo") galaxy
    ∷ body (codes "Sunflower Twin") galaxy
    ∷ body (codes "Eye of Sauron") galaxy
    ∷ body (codes "Medusa") galaxy
    ∷ body (codes "Penguin") galaxy
    ∷ body (codes "Atoms for Peace") galaxy
    ∷ body (codes "Integral Sign") galaxy
    ∷ body (codes "Condor") galaxy
    ∷ body (codes "Sculptor Filament") galaxy
    ∷ body (codes "Backward") galaxy
    ∷ body (codes "Lindsay-Shapley") galaxy
    ∷ body (codes "Papillon") galaxy
    ∷ body (codes "Serpens") galaxy
    ∷ body (codes "Ursa Major") galaxy
    ∷ body (codes "Ursa Minor") galaxy
    ∷ body (codes "Bootes") galaxy
    ∷ body (codes "Coma Berenices") galaxy
    ∷ body (codes "Canes Venatici") galaxy
    ∷ body (codes "Reticulum") galaxy
    ∷ body (codes "Hercules") galaxy
    ∷ body (codes "Willman") galaxy
    ∷ body (codes "Segue") galaxy
    ∷ body (codes "Leo Twin") galaxy
    ∷ body (codes "Crater") galaxy
    ∷ body (codes "Antlia") galaxy
    ∷ body (codes "Grus") galaxy
    ∷ body (codes "Horologium") galaxy
    ∷ body (codes "Pictor") galaxy
    ∷ body (codes "Columba") galaxy
    ∷ body (codes "Pisces") galaxy
    ∷ []
