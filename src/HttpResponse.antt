-- ===== src/HttpResponse.antt =====
-- utils/http_response.c: `build_response`, which prints the parts of a response one behind the other
-- into a buffer. What each format yields is a text of character codes; `snprintf` is a parameter.
pub mod Contents
pub mod Overflow
pub mod Tests
use libseff.Base.{
  ℕ, ◌+◌, ◌-◌, ◌%◌, ◌^◌, ◌<◌, ◌≤◌, ◌≡◌, Bool, ltb, if◌then◌else◌, ◌⊎◌, Option, none, some, List, [],
  ◌∷◌, length, get_elem?,
}

abbrev pub Text : Type 0
Text = List ℕ

abbrev pub Memory : Type 0
Memory = ℕ → ℕ

-- `snprintf(dst, size, ...)` as the C standard has it, for a text that is not too long for its `int`: it
-- returns the length of the text, and writes as much of it as fits and a NUL behind that.
pub record Printf : Type 0 where
  pub snprintf : Memory → ℕ → ℕ → Text → Memory
  pub prints :
      (m : Memory) (dst size : ℕ) (text : Text) (i : ℕ)
      → i < length text
      → i + 1 < size
      → some (snprintf m dst size text (dst + i)) ≡ get_elem? text i
  pub terminates :
      (m : Memory) (dst size : ℕ) (text : Text)
      → length text < size
      → snprintf m dst size text (dst + length text) ≡ 0
  pub stays :
      (m : Memory) (dst size : ℕ) (text : Text) (a : ℕ)
      → (a < dst) ⊎ (dst + size ≤ a)
      → snprintf m dst size text a ≡ m a

-- The local `response_length`, and the memory.
pub record Printed : Type 0 where
  pub response_length : ℕ
  pub memory : Memory

abbrev pub crlf : Text
crlf = 13 ∷ 10 ∷ []

-- The texts that `build_response` prints behind the header, in order; the dated line, the two lines of
-- the content and the body as their formats yield them.
abbrev pub texts : Text → Text → Text → Text → Bool → List Text
texts date length_line type_line body has_content =
    crlf ∷ date ∷ length_line ∷ type_line ∷ crlf ∷ (if has_content then body ∷ [] else [])

module _ (printf : Printf) (buffer buff_size : ℕ) where
  -- One `response_length += snprintf(...)`, in the arithmetic of `size_t`.
  abbrev pub print : Printed → Text → Printed
  print p text = record {
    response_length = (p.response_length + length text) % 2 ^ 64;
    memory =
        printf.snprintf p.memory (buffer + p.response_length)
          ((buff_size + 2 ^ 64 - p.response_length) % 2 ^ 64) text;
  }

  abbrev pub print_all : Printed → List Text → Printed
  print_all p [] = p
  print_all p (text ∷ rest) = print_all (print p text) rest

  -- The answer; `none` is -1.
  abbrev pub outcome : Printed → Option ℕ × Memory
  outcome p = (if ltb p.response_length buff_size then some p.response_length else none, p.memory)

  -- `build_response`
  pub build_response : Memory → Text → Text → Text → Text → Text → Bool → Option ℕ × Memory
  build_response m header date length_line type_line body has_content = outcome (
      print_all (record { response_length = 0; memory = m })
        (header ∷ texts date length_line type_line body has_content))
