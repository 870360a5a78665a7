-- ===== src/Chameneos/Tests.antt =====
-- Small runs of the creatures, and numbers spelt.
use libseff.Base.{ℕ, ◌<◌, ◌≡◌, refl, arith, ltb, if◌then◌else◌, List, [], ◌∷◌, All}
use libseff.Base.Result.{Fault, ok, err}
use libseff.Chameneos.{Colour, int_pow, spell_int, execute}
use libseff.Chameneos.Spelling.{value, spell_int-value}

abbrev creatures : ℕ → Colour
creatures i = if ltb i 1 then 0 else if ltb i 2 then 1 else 2

thousand : int_pow 10 3 ≡ 1000
unfolding int_pow
thousand = refl

abbrev log_of : ℕ → ℕ
log_of a = if ltb a 10 then 0 else if ltb a 100 then 1 else if ltb a 1000 then 2 else 3

spelt : spell_int log_of 1200 ≡ ok (1 ∷ 2 ∷ 0 ∷ 0 ∷ [])
unfolding spell_int
spelt = refl

-- Without creatures the remainder is by 0.
no_creatures : execute log_of 1 0 creatures ≡ err Fault.undefined
unfolding execute
no_creatures = refl

spell_int-value_example :
    (first : ℕ) × (digits : List ℕ) × (spell_int log_of 1200 ≡ ok (first ∷ digits))
    × (value (first ∷ digits) ≡ 1200)
    × (0 < first)
    × All (λ d. d < 10) (first ∷ digits)
spell_int-value_example = spell_int-value log_of 1200 (omega arith) (omega arith) (omega arith)
