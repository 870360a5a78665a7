-- ===== src/HttpResponse/Overflow.antt =====
-- What `build_response` does once its buffer is full.
use libseff.Base.{
  ℕ, ◌+◌, ◌-◌, ◌%◌, ◌^◌, ◌<◌, ◌≡◌, ap, ◌∙◌, arith, Bool, if◌then◌else◌, Option, none, some, List,
  [], ◌∷◌, length, length-append,
}
use libseff.HttpResponse.{Text, Memory, Printf, Printed, crlf, print, build_response}
use libseff.HttpResponse.Contents.{concat, print_all-below, result, response}

some_injective : {a b : ℕ} → some a ≡ some b → a ≡ b
some_injective {a} e = ap (λ (o : Option ℕ). elim o [ none ↦ a | some c ↦ c ]) e

module _ (printf : Printf) (buffer buff_size : ℕ) (int_size : buff_size < 2 ^ 31) (m : Memory) where
  result-overflow :
      (text : Text) (l : List Text)
      → buff_size < length text
      → length (concat (text ∷ crlf ∷ l)) < 2 ^ 64
      → (result printf buffer buff_size int_size m (text ∷ crlf ∷ l)).1 (buffer + length text) ≡ 13
  result-overflow text l long small =
      print_all-below printf buffer buff_size int_size second l (buffer + length text)
        (omega (arith, length-append text (concat (crlf ∷ l))))
        (omega (arith, length-append text (concat (crlf ∷ l))))
      ∙ ap second.memory (omega (arith, length-append text (concat (crlf ∷ l))))
      ∙ some_injective (
          printf.prints first.memory (buffer + first.response_length)
            ((buff_size + 2 ^ 64 - first.response_length) % 2 ^ 64) crlf 0 (omega arith)
            (omega (arith, length-append text (concat (crlf ∷ l)))))
    where
      first : Printed
      first = print printf buffer buff_size (record { response_length = 0; memory = m }) text

      second : Printed
      second = print printf buffer buff_size first crlf

  -- If the header alone is longer than the buffer, the size that is left wraps around, and the line
  -- break after the header is written past the end of the buffer.
  pub build_response-overflow :
      (header date length_line type_line body : Text) (has_content : Bool)
      → buff_size < length header
      → length (
          response printf buffer buff_size int_size m header date length_line type_line body
            has_content)
        < 2 ^ 64
      → ((build_response printf buffer buff_size m header date length_line type_line body
              has_content).1
            (buffer + length header)
          ≡ 13)
        × (buffer + buff_size < buffer + length header)
  unfolding build_response
  build_response-overflow header date length_line type_line body has_content long small = (
    result-overflow header
        (date ∷ length_line ∷ type_line ∷ crlf ∷ (if has_content then body ∷ [] else [])) long
        small,
    omega arith,
  )
