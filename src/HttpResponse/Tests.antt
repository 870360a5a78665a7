-- ===== src/HttpResponse/Tests.antt =====
-- Responses printed by a `snprintf` that does what the C standard says.
use libseff.Base.{
  ℕ, zero, suc, ◌+◌, ◌-◌, ◌<◌, ◌≤◌, ◌≡◌, refl, ap, ◌∙◌, arith, true, ltb, leb, ◌&&◌, if◌then◌else◌,
  inl, inr, ◌⊎◌, Option, some, [], ◌∷◌, length, get_elem?, get_or,
}
use libseff.HttpResponse.{Text, Memory, Printf, build_response}

abbrev put : Memory → ℕ → ℕ → Text → Memory
put m dst size text a =
    if leb dst a && ltb a (dst + size) && leb (a - dst) (length text)
    then if ltb (a - dst + 1) size then get_or text (a - dst) 0 else 0
    else m a

pub some-get_or :
    (text : Text) (i : ℕ) → i < length text → some (get_or text i 0) ≡ get_elem? text i
some-get_or [] i h = absurd (omega arith)
some-get_or (c ∷ text) zero h = refl
some-get_or (c ∷ text) (suc i) h = some-get_or text i (omega arith)

get_or-length : (text : Text) → get_or text (length text) 0 ≡ 0
get_or-length [] = refl
get_or-length (c ∷ text) = get_or-length text

pub put-prints :
    (m : Memory) (dst size : ℕ) (text : Text) (i : ℕ)
    → i < length text
    → i + 1 < size
    → put m dst size text (dst + i) ≡ get_or text i 0
put-prints m dst size text i h lt = ground arith

pub put-terminates :
    (m : Memory) (dst size : ℕ) (text : Text)
    → length text < size
    → put m dst size text (dst + length text) ≡ 0
put-terminates m dst size text h = ground (arith, get_or-length text)

pub put-stays :
    (m : Memory) (dst size : ℕ) (text : Text) (a : ℕ)
    → (a < dst) ⊎ (dst + size ≤ a)
    → put m dst size text a ≡ m a
put-stays m dst size text a (inl h) = ground arith
put-stays m dst size text a (inr h) = ground arith

abbrev pub libc : Printf
libc = record {
  snprintf = put;
  prints =
      λ m dst size text i h lt. ap some (put-prints m dst size text i h lt) ∙ some-get_or text i h;
  terminates = put-terminates;
  stays = put-stays;
}

-- A buffer at the address 1000 in memory full of 9; the texts are short.
abbrev nines : Memory
nines a = 9

abbrev ok_header : Text
ok_header = 50 ∷ 48 ∷ 48 ∷ []

-- The answer with the texts "d", "n", "t" and "b", for a buffer of so many bytes.
abbrev answer_in : ℕ → Option ℕ × Memory
answer_in n =
    build_response libc 1000 n nines ok_header (100 ∷ []) (110 ∷ []) (116 ∷ []) (98 ∷ []) true

abbrev whole : Text
whole = 50 ∷ 48 ∷ 48 ∷ 13 ∷ 10 ∷ 100 ∷ 110 ∷ 116 ∷ 13 ∷ 10 ∷ 98 ∷ []
