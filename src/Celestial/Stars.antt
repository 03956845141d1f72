-- ===== src/Celestial/Stars.antt =====
-- The table of stars in apps/web/src/core/lib/celestial.ts.
use agentgrove.Base.{List, [], codes, ◌∷◌}
use agentgrove.Celestial.Bodies.{CelestialBody, body, star}

unfoldable pub stars : List CelestialBody
stars =
    body (codes "Sirius") star
    ∷ body (codes "Vega") star
    ∷ body (codes "Rigel") star
    ∷ body (codes "Arcturus") star
    ∷ body (codes "Betelgeuse") star
    ∷ body (codes "Antares") star
    ∷ body (codes "Polaris") star
    ∷ body (codes "Altair") star
    ∷ body (codes "Deneb") star
    ∷ body (codes "Spica") star
    ∷ body (codes "Procyon") star
    ∷ body (codes "Achernar") star
    ∷ body (codes "Hadar") star
    ∷ body (codes "Acrux") star
    ∷ body (codes "Aldebaran") star
    ∷ body (codes "Regulus") star
    ∷ body (codes "Castor") star
    ∷ body (codes "Pollux") star
    ∷ body (codes "Mizar") star
    ∷ body (codes "Fomalhaut") star
    ∷ body (codes "Bellatrix") star
    ∷ body (codes "Adhara") star
    ∷ body (codes "Alnitak") star
    ∷ body (codes "Saiph") star
    ∷ body (codes "Mirach") star
    ∷ body (codes "Capella") star
    ∷ body (codes "Canopus") star
    ∷ body (codes "Alphard") star
    ∷ body (codes "Alnilam") star
    ∷ body (codes "Mintaka") star
    ∷ body (codes "Rigil Kentaurus") star
    ∷ body (codes "Toliman") star
    ∷ body (codes "Proxima") star
    ∷ body (codes "Wezen") star
    ∷ body (codes "Sargas") star
    ∷ body (codes "Kaus Australis") star
    ∷ body (codes "Avior") star
    ∷ body (codes "Alkaid") star
    ∷ body (codes "Menkalinan") star
    ∷ body (codes "Atria") star
    ∷ body (codes "Alhena") star
    ∷ body (codes "Peacock") star
    ∷ body (codes "Alsephina") star
    ∷ body (codes "Mirzam") star
    ∷ body (codes "Alphecca") star
    ∷ body (codes "Suhail") star
    ∷ body (codes "Sadr") star
    ∷ body (codes "Naos") star
    ∷ body (codes "Almach") star
    ∷ body (codes "Caph") star
    ∷ body (codes "Izar") star
    ∷ body (codes "Schedar") star
    ∷ body (codes "Rasalhague") star
    ∷ body (codes "Kochab") star
    ∷ body (codes "Denebola") star
    ∷ body (codes "Algol") star
    ∷ body (codes "Tarazed") star
    ∷ body (codes "Enif") star
    ∷ body (codes "Scheat") star
    ∷ body (codes "Markab") star
    ∷ body (codes "Alderamin") star
    ∷ body (codes "Alnair") star
    ∷ body (codes "Diphda") star
    ∷ body (codes "Nunki") star
    ∷ body (codes "Menkar") star
    ∷ body (codes "Alcyone") star
    ∷ body (codes "Electra") star
    ∷ body (codes "Maia") star
    ∷ body (codes "Merope") star
    ∷ body (codes "Taygeta") star
    ∷ body (codes "Sheratan") star
    ∷ body (codes "Hamal") star
    ∷ body (codes "Gienah") star
    ∷ body (codes "Zosma") star
    ∷ body (codes "Vindemiatrix") star
    ∷ body (codes "Porrima") star
    ∷ body (codes "Zubenelgenubi") star
    ∷ body (codes "Unukalhai") star
    ∷ body (codes "Rastaban") star
    ∷ body (codes "Eltanin") star
    ∷ body (codes "Cursa") star
    ∷ body (codes "Sadalsuud") star
    ∷ body (codes "Sadalmelik") star
    ∷ body (codes "Baten Kaitos") star
    ∷ body (codes "Acrab") star
    ∷ body (codes "Dschubba") star
    ∷ body (codes "Sabik") star
    ∷ body (codes "Shaula") star
    ∷ body (codes "Lesath") star
    ∷ []
