-- ===== src/Chameneos/Colours.antt =====
-- `complement` of bench/chameneos_bench/chameneos_common.h.
use libseff.Base.{zero, suc, ◌<◌, ◌≡◌, ◌≢◌, refl, arith}
use libseff.Chameneos.{Colour, complement}

-- The third of three colours that are not all the same, and else the same colour: of two colours,
-- `complement` gives a colour, the same in either order, which of two colours that differ is neither.
pub complement_lem :
    (a b : Colour)
    → a < 3
    → b < 3
    → (complement a b < 3)
      × (complement a b ≡ complement b a)
      × (complement a a ≡ a)
      × (a ≢ b → (complement a b ≢ a) × (complement a b ≢ b))
unfolding complement
complement_lem zero zero s t = (omega arith, refl, refl, λ ne. absurd (ne refl))
complement_lem zero (suc zero) s t = (omega arith, refl, refl, λ ne. (omega arith, omega arith))
complement_lem zero (suc (suc zero)) s t =
    (omega arith, refl, refl, λ ne. (omega arith, omega arith))
complement_lem (suc zero) zero s t = (omega arith, refl, refl, λ ne. (omega arith, omega arith))
complement_lem (suc zero) (suc zero) s t = (omega arith, refl, refl, λ ne. absurd (ne refl))
complement_lem (suc zero) (suc (suc zero)) s t =
    (omega arith, refl, refl, λ ne. (omega arith, omega arith))
complement_lem (suc (suc zero)) zero s t =
    (omega arith, refl, refl, λ ne. (omega arith, omega arith))
complement_lem (suc (suc zero)) (suc zero) s t =
    (omega arith, refl, refl, λ ne. (omega arith, omega arith))
complement_lem (suc (suc zero)) (suc (suc zero)) s t =
    (omega arith, refl, refl, λ ne. absurd (ne refl))
complement_lem (suc (suc (suc a))) b s t = absurd (omega arith)
complement_lem zero (suc (suc (suc b))) s t = absurd (omega arith)
complement_lem (suc zero) (suc (suc (suc b))) s t = absurd (omega arith)
complement_lem (suc (suc zero)) (suc (suc (suc b))) s t = absurd (omega arith)
