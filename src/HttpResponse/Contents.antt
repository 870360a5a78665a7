-- ===== src/HttpResponse/Contents.antt =====
-- What `build_response` answers and leaves in its buffer.
use libseff.Base.{
  ℕ, zero, suc, ◌+◌, ◌-◌, ◌%◌, ◌^◌, ◌<◌, ◌≤◌, ◌≡◌, refl, sym, ap, ◌∙◌, arith, Bool, true, false,
  ltb, ◌⊎◌, inl, inr, Option, none, some, List, [], ◌∷◌, ◌++◌, length, get_elem?, dec_lt,
  length-append,
}
use libseff.HttpResponse.{
  Text, Memory, Printf, Printed, texts, print, print_all, outcome, build_response,
}

abbrev pub concat : List Text → Text
concat [] = []
concat (text ∷ rest) = text ++ concat rest

get_elem?-append_left :
    (xs ys : Text) (i : ℕ) → i < length xs → get_elem? (xs ++ ys) i ≡ get_elem? xs i
get_elem?-append_left [] ys i h = absurd (omega arith)
get_elem?-append_left (x ∷ xs) ys zero h = refl
get_elem?-append_left (x ∷ xs) ys (suc i) h = get_elem?-append_left xs ys i (omega arith)

get_elem?-append_right :
    (xs ys : Text) (i j : ℕ) → i ≡ length xs + j → get_elem? (xs ++ ys) i ≡ get_elem? ys j
get_elem?-append_right [] ys i j e = ap (get_elem? ys) (omega arith)
get_elem?-append_right (x ∷ xs) ys zero j e = absurd (omega arith)
get_elem?-append_right (x ∷ xs) ys (suc i) j e = get_elem?-append_right xs ys i j (omega arith)

-- The memory from `start` on holds the text.
abbrev pub HoldsText : Memory → ℕ → Text → Type 0
HoldsText m start text = (i : ℕ) → i < length text → some (m (start + i)) ≡ get_elem? text i

module _ (printf : Printf) (buffer buff_size : ℕ) (int_size : buff_size < 2 ^ 31) where
  print_all-length :
      (p : Printed) (l : List Text)
      → p.response_length + length (concat l) < 2 ^ 64
      → (print_all printf buffer buff_size p l).response_length
        ≡ p.response_length + length (concat l)
  print_all-length p [] h = omega arith
  print_all-length p (text ∷ rest) h = omega (
    arith,
    length-append text (concat rest),
    print_all-length (print printf buffer buff_size p text) rest,
  )

  -- Once a text is printed, those behind it do not change it.
  pub print_all-below :
      (p : Printed) (l : List Text) (a : ℕ)
      → p.response_length + length (concat l) < 2 ^ 64
      → a < buffer + p.response_length
      → (print_all printf buffer buff_size p l).memory a ≡ p.memory a
  print_all-below p [] a h lt = refl
  print_all-below p (text ∷ rest) a h lt =
      print_all-below (print printf buffer buff_size p text) rest a
        (omega (arith, length-append text (concat rest)))
        (omega (arith, length-append text (concat rest)))
      ∙ printf.stays p.memory (buffer + p.response_length)
          ((buff_size + 2 ^ 64 - p.response_length) % 2 ^ 64) text a (inl lt)

  print_all-above :
      (p : Printed) (l : List Text) (a : ℕ)
      → p.response_length + length (concat l) < buff_size
      → buffer + buff_size ≤ a
      → (print_all printf buffer buff_size p l).memory a ≡ p.memory a
  print_all-above p [] a h le = refl
  print_all-above p (text ∷ rest) a h le =
      print_all-above (print printf buffer buff_size p text) rest a
        (omega (arith, length-append text (concat rest))) le
      ∙ printf.stays p.memory (buffer + p.response_length)
          ((buff_size + 2 ^ 64 - p.response_length) % 2 ^ 64) text a
          (inr (omega (arith, length-append text (concat rest))))

  print_all-HoldsText :
      (p : Printed) (l : List Text)
      → p.response_length + length (concat l) < buff_size
      → HoldsText
          (print_all printf buffer buff_size p l).memory
          (buffer + p.response_length)
          (concat l)
  print_all-HoldsText p [] h i lt = absurd (omega arith)
  print_all-HoldsText p (text ∷ rest) h i lt = elim (dec_lt i (length text)) [
    | yes here ↦
        ap some (
          print_all-below next rest (buffer + p.response_length + i)
            (omega (arith, length-append text (concat rest)))
            (omega (arith, length-append text (concat rest))))
        ∙ printf.prints p.memory (buffer + p.response_length) size text i here
            (omega (arith, length-append text (concat rest)))
        ∙ sym (get_elem?-append_left text (concat rest) i here)
    | no there ↦
        ap (λ a. some ((print_all printf buffer buff_size next rest).memory a))
          (omega (arith, length-append text (concat rest)))
        ∙ print_all-HoldsText next rest (omega (arith, length-append text (concat rest)))
            (i - length text) (omega (arith, length-append text (concat rest)))
        ∙ sym (get_elem?-append_right text (concat rest) i (i - length text) (omega arith))
  ]
    where
      next : Printed
      next = print printf buffer buff_size p text

      size : ℕ
      size = (buff_size + 2 ^ 64 - p.response_length) % 2 ^ 64

  print_all-terminated :
      (p : Printed) (text : Text) (l : List Text)
      → p.response_length + length (concat (text ∷ l)) < buff_size
      → (print_all printf buffer buff_size p (text ∷ l)).memory
          (buffer + p.response_length + length (concat (text ∷ l)))
        ≡ 0
  print_all-terminated p text [] h =
      ap (print_all printf buffer buff_size p (text ∷ [])).memory
        (omega (arith, length-append text []))
      ∙ printf.terminates p.memory (buffer + p.response_length)
          ((buff_size + 2 ^ 64 - p.response_length) % 2 ^ 64) text
          (omega (arith, length-append text []))
  print_all-terminated p text (text' ∷ l) h =
      ap (print_all printf buffer buff_size p (text ∷ text' ∷ l)).memory
        (omega (arith, length-append text (concat (text' ∷ l))))
      ∙ print_all-terminated (print printf buffer buff_size p text) text' l
          (omega (arith, length-append text (concat (text' ∷ l))))

  module _ (m : Memory) where
    abbrev pub start : Printed
    start = record { response_length = 0; memory = m }

    -- What is printed from the start of the buffer on.
    abbrev pub result : List Text → Option ℕ × Memory
    result l = outcome printf buffer buff_size (print_all printf buffer buff_size start l)

    result-HoldsText :
        (text : Text) (l : List Text)
        → length (concat (text ∷ l)) < buff_size
        → ((result (text ∷ l)).0 ≡ some (length (concat (text ∷ l))))
          × HoldsText (result (text ∷ l)).1 buffer (concat (text ∷ l))
          × ((result (text ∷ l)).1 (buffer + length (concat (text ∷ l))) ≡ 0)
          × ((a : ℕ) → (a < buffer) ⊎ (buffer + buff_size ≤ a) → (result (text ∷ l)).1 a ≡ m a)
    result-HoldsText text l fits = (
      rw (len, fits_test) refl,
      λ i h.
          ap (λ a. some ((result (text ∷ l)).1 a)) (omega arith)
          ∙ print_all-HoldsText start (text ∷ l) (omega arith) i h,
      ap (result (text ∷ l)).1 (omega arith) ∙ print_all-terminated start text l (omega arith),
      λ a outside. elim outside [
        | inl h ↦ print_all-below start (text ∷ l) a (omega arith) (omega arith)
        | inr h ↦ print_all-above start (text ∷ l) a (omega arith) h
      ],
    )
      where
        len :
            (print_all printf buffer buff_size start (text ∷ l)).response_length
            ≡ length (concat (text ∷ l))
        len = omega (arith, print_all-length start (text ∷ l))

        fits_test : ltb (length (concat (text ∷ l))) buff_size ≡ true
        fits_test = ground arith

    pub result-refuses :
        (l : List Text)
        → buff_size ≤ length (concat l)
        → length (concat l) < 2 ^ 64
        → (result l).0 ≡ none
    result-refuses l long small = rw (len, long_test) refl
      where
        len : (print_all printf buffer buff_size start l).response_length ≡ length (concat l)
        len = omega (arith, print_all-length start l)

        long_test : ltb (length (concat l)) buff_size ≡ false
        long_test = ground arith

  -- The response as it should be.
  module _ (m : Memory) (header date length_line type_line body : Text) (has_content : Bool) where
    abbrev pub response : Text
    response = concat (header ∷ texts date length_line type_line body has_content)

    abbrev pub answer : Option ℕ × Memory
    answer =
        build_response printf buffer buff_size m header date length_line type_line body has_content

    pub build_response-HoldsText :
        length response < buff_size
        → (answer.0 ≡ some (length response))
          × HoldsText answer.1 buffer response
          × (answer.1 (buffer + length response) ≡ 0)
          × ((a : ℕ) → (a < buffer) ⊎ (buffer + buff_size ≤ a) → answer.1 a ≡ m a)
    unfolding build_response
    build_response-HoldsText fits =
        result-HoldsText m header (texts date length_line type_line body has_content) fits

    -- A response as long as the buffer or longer is refused with -1.
    pub build_response-refuses :
        buff_size ≤ length response → length response < 2 ^ 64 → answer.0 ≡ none
    unfolding build_response
    build_response-refuses long small =
        result-refuses m (header ∷ texts date length_line type_line body has_content) long small
