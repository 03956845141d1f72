-- ===== src/Celestial/Planets.antt =====
-- The table of planets in apps/web/src/core/lib/celestial.ts.
use agentgrove.Base.{List, [], codes, ◌∷◌}
use agentgrove.Celestial.Bodies.{CelestialBody, body, planet}

unfoldable pub planets : List CelestialBody
planets =
    body (codes "Mercury") planet
    ∷ body (codes "Venus") planet
    ∷ body (codes "Earth") planet
    ∷ body (codes "Mars") planet
    ∷ body (codes "Jupiter") planet
    ∷ body (codes "Saturn") planet
    ∷ body (codes "Uranus") planet
    ∷ body (codes "Neptune") planet
    ∷ body (codes "Pluto") planet
    ∷ body (codes "Eris") planet
    ∷ body (codes "Ceres") planet
    ∷ body (codes "Haumea") planet
    ∷ body (codes "Makemake") planet
    ∷ body (codes "Sedna") planet
    ∷ body (codes "Orcus") planet
    ∷ body (codes "Quaoar") planet
    ∷ body (codes "Varuna") planet
    ∷ body (codes "Ixion") planet
    ∷ body (codes "Gonggong") planet
    ∷ body (codes "Salacia") planet
    ∷ body (codes "Chaos") planet
    ∷ body (codes "Deucalion") planet
    ∷ body (codes "Huya") planet
    ∷ body (codes "Logos") planet
    ∷ body (codes "Rhadamanthus") planet
    ∷ body (codes "Vesta") planet
    ∷ body (codes "Pallas") planet
    ∷ body (codes "Hygiea") planet
    ∷ body (codes "Juno") planet
    ∷ body (codes "Astraea") planet
    ∷ body (codes "Iris") planet
    ∷ body (codes "Flora") planet
    ∷ body (codes "Hebe") planet
    ∷ body (codes "Egeria") planet
    ∷ body (codes "Psyche") planet
    ∷ body (codes "Eunomia") planet
    ∷ body (codes "Davida") planet
    ∷ body (codes "Interamnia") planet
    ∷ body (codes "Europa") planet
    ∷ body (codes "Ganymede") planet
    ∷ body (codes "Callisto") planet
    ∷ body (codes "Io") planet
    ∷ body (codes "Titan") planet
    ∷ body (codes "Enceladus") planet
    ∷ body (codes "Rhea") planet
    ∷ body (codes "Iapetus") planet
    ∷ body (codes "Dione") planet
    ∷ body (codes "Tethys") planet
    ∷ body (codes "Mimas") planet
    ∷ body (codes "Titania") planet
    ∷ body (codes "Oberon") planet
    ∷ body (codes "Umbriel") planet
    ∷ body (codes "Ariel") planet
    ∷ body (codes "Miranda") planet
    ∷ body (codes "Triton") planet
    ∷ body (codes "Nereid") planet
    ∷ body (codes "Charon") planet
    ∷ body (codes "Phobos") planet
    ∷ body (codes "Deimos") planet
    ∷ body (codes "Osiris") planet
    ∷ body (codes "Bellerophon") planet
    ∷ body (codes "Dimidium") planet
    ∷ body (codes "Methuselah") planet
    ∷ body (codes "Tadmor") planet
    ∷ body (codes "Galileo") planet
    ∷ body (codes "Poltergeist") planet
    ∷ body (codes "Phobetor") planet
    ∷ body (codes "Draugr") planet
    ∷ body (codes "Amateru") planet
    ∷ body (codes "Arion") planet
    ∷ body (codes "Janssen") planet
    ∷ body (codes "Harriot") planet
    ∷ body (codes "Quijote") planet
    ∷ body (codes "Dulcinea") planet
    ∷ body (codes "Rocinante") planet
    ∷ body (codes "Sancho") planet
    ∷ body (codes "Halla") planet
    ∷ body (codes "Spe") planet
    ∷ body (codes "Arkas") planet
    ∷ body (codes "Tanager") planet
    ∷ body (codes "Lipperhey") planet
    ∷ body (codes "Meridiana") planet
    ∷ body (codes "Cayahuanca") planet
    ∷ body (codes "Taphao Thong") planet
    ∷ body (codes "Taphao Kaew") planet
    ∷ body (codes "Thestias") planet
    ∷ body (codes "Samh") planet
    ∷ body (codes "Sazum") planet
    ∷ body (codes "Naqu") planet
    ∷ body (codes "Aumatex") planet
    ∷ body (codes "Ugarit") planet
    ∷ body (codes "Yvaga") planet
    ∷ body (codes "Tondra") planet
    ∷ []
