-- ===== src/Chameneos.antt =====
-- bench/chameneos_bench: the creatures of chameneos_effect.h as coroutines, `execute` of
-- chameneos_effect_direct.c, which lets them meet two by two, and the functions of chameneos_common.h.
-- What is printed as text is left out, but for the digits of `spell_int`; allocations succeed.
pub mod Colours
pub mod Spelling
pub mod Meetings
pub mod Tests
use Prim.Native.Nat.{bit_or, bit_xor}
use libseff.Base.{
  ℕ, zero, suc, ◌+◌, ◌-◌, ◌*◌, ◌/◌, ◌%◌, ◌^◌, ltb, ◌==◌, Bool, true, false, if◌then◌else◌, List, [],
  ◌∷◌,
}
use libseff.Base.Memory.{update}
use libseff.Base.Result.{Fault, Result, ok, err, ◌>>=◌, ◌>>◌, guard}

-- `colour`: Blue is 0, Red 1 and Yellow 2.
abbrev pub Colour : Type 0
Colour = ℕ

unfoldable pub complement : Colour → Colour → Colour
complement a b = if a == b then a else bit_xor 3 (bit_or a b)

-- `int_pow`, on fuel; with the exponent as fuel no call runs out of it.
pub int_pow_from : ℕ → ℕ → ℕ → ℕ
int_pow_from zero base exp = 1
int_pow_from (suc fuel) base exp =
    let prev = int_pow_from fuel base (exp / 2) in
    if exp == 0
    then 1
    else if exp == 1
    then base
    else if exp % 2 == 0
    then prev * prev
    else prev * prev * base

pub int_pow : ℕ → ℕ → ℕ
unfolding int_pow_from
int_pow base exp = int_pow_from exp base exp

-- The loop of `spell_int` with `base` below the first argument: the digits that it prints, or the end
-- of the process by `abort`.
pub spell_from : ℕ → ℕ → Result (List ℕ)
unfolding int_pow
spell_from zero a = ok []
spell_from (suc base) a = do
  let digit = a / int_pow 10 base
  guard (ltb digit 10) Fault.exited
  digits ← spell_from base (a % int_pow 10 base)
  ok (digit ∷ digits)

-- `spell_int` of an int that is not negative; `floor_log10` is `(int)floor(log10(a))`.
pub spell_int : (ℕ → ℕ) → ℕ → Result (List ℕ)
unfolding spell_from
spell_int floor_log10 zero = ok (0 ∷ [])
spell_int floor_log10 (suc a) = spell_from (floor_log10 (suc a) + 1) (suc a)

-- `chameneos_meet_t`
pub record Meet : Type 0 where
  pub finish : Bool
  pub chameneos : ℕ
  pub col : Colour

-- The locals of the coroutine `chameneos` where it performs `meet`.
pub record Creature : Type 0 where
  pub self_col : Colour
  pub self_id : ℕ
  pub meetings : ℕ
  pub self_meetings : ℕ

-- `seff_request_t`: the effect `meet` with its payload, or the end with the number of meetings.
pub data Request : Type 0 where
  meet : (self : ℕ) (msg : Colour) → Request
  returned : (meetings : ℕ) → Request

abbrev pub asks : Creature → Request
asks c = Request.meet c.self_id c.self_col

-- From the resume with a mate to the next request.
pub chameneos : Creature → Meet → Creature × Request
unfolding complement
chameneos c mate =
    let met : Creature = record {
      self_col = complement c.self_col mate.col;
      self_id = c.self_id;
      meetings = (c.meetings + 1) % 2 ^ 64;
      self_meetings = if c.self_id == mate.chameneos then c.self_meetings + 1 else c.self_meetings;
    } in
    if mate.finish then (c, Request.returned c.meetings) else (met, asks met)

-- `next`, and the arrays `chms` and `reqs` of `execute`.
pub record Arena : Type 0 where
  pub next : ℕ
  pub chms : ℕ → Creature
  pub reqs : ℕ → Request

-- A new coroutine, and its first request.
abbrev pub new_creature : ℕ → Colour → Creature
new_creature i col = record { self_col = col; self_id = i; meetings = 0; self_meetings = 0 }

abbrev pub arena : (ℕ → Colour) → Arena
arena creatures = record {
  next = 0;
  chms = λ i. new_creature i (creatures i);
  reqs = λ i. asks (new_creature i (creatures i));
}

-- The `switch` on a request, in which any other effect leaves the locals as they are, unset.
abbrev pub mate_of : Request → Result Meet
mate_of (Request.meet self msg) = ok (record { finish = false; chameneos = self; col = msg })
mate_of (Request.returned meetings) = err Fault.undefined

-- A resume of creature `i` with a mate.
abbrev pub resume_creature : Arena → ℕ → Meet → Arena
resume_creature s i mate =
    let (creature, request) = chameneos (s.chms i) mate in
    record s { chms = update s.chms i creature; reqs = update s.reqs i request }

-- A round of the loop of `execute`, among `size` creatures; a remainder by 0 is undefined.
pub encounter : ℕ → Arena → Result Arena
unfolding chameneos
encounter size s = do
  guard (ltb 0 size) Fault.undefined
  let a = s.next
  let b = (s.next + 1) % size
  first ← mate_of (s.reqs a)
  second ← mate_of (s.reqs b)
  ok (resume_creature (resume_creature (record s { next = (b + 1) % size }) a second) b first)

pub encounters : ℕ → ℕ → Arena → Result Arena
unfolding encounter
encounters size zero s = ok s
encounters size (suc meetings) s = encounter size s >>= encounters size meetings

-- The last loop, for the creatures below the first argument: `total_meetings`.
pub totalled : ℕ → Arena → ℕ
unfolding chameneos
totalled zero s = 0
totalled (suc i) s =
    let last : Meet = record { finish = true; chameneos = 0; col = 0 } in
    (totalled i s + payload (chameneos (s.chms i) last).1) % 2 ^ 64
  where
    payload : Request → ℕ
    payload (Request.meet self msg) = 0
    payload (Request.returned meetings) = meetings

-- `spell_int(total_meetings)`: the uint64_t becomes an `int`, by gcc modulo 2^32. Of an int below 0
-- `log10` is not a number, and its conversion to an `int` is undefined.
abbrev pub spell_total : (ℕ → ℕ) → ℕ → Result (List ℕ)
spell_total floor_log10 total_meetings =
    guard (ltb (total_meetings % 2 ^ 32) (2 ^ 31)) Fault.undefined
    >> spell_int floor_log10 (total_meetings % 2 ^ 32)

-- `execute`: the digits that it prints, and the creatures at the end.
pub execute : (ℕ → ℕ) → ℕ → ℕ → (ℕ → Colour) → Result (List ℕ × (ℕ → Creature))
unfolding encounters totalled spell_int
execute floor_log10 meetings size creatures = do
  s ← encounters size meetings (arena creatures)
  digits ← spell_total floor_log10 (totalled size s)
  ok (digits, s.chms)
