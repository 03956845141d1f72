-- ===== src/Celestial/Bodies.antt =====
-- A celestial body of apps/web/src/core/lib/celestial.ts.
use agentgrove.Base.{Str}

pub data CelestialKind : Type 0 where
  star planet galaxy : CelestialKind

pub record CelestialBody : Type 0 where
  pub display : Str
  pub kind : CelestialKind

abbrev pub body : Str → CelestialKind → CelestialBody
body display kind = record { display = display; kind = kind }
