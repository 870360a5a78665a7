-- ===== src/HttpServer/Routes.antt =====
-- Which page `connection_fun` of bench/http_server_bench/libscheff.c sends.
use libseff.Base.{
  ℕ, suc, ◌+◌, ◌≡◌, ◌≢◌, refl, ap, ap₂, ◌∙◌, arith, Bool, true, false, ◌&&◌, ◌==◌, some, [], ◌∷◌,
  length, All,
}
use libseff.HttpResponse.{Text, Memory}
use libseff.HttpResponse.Contents.{HoldsText}
use libseff.HttpServer.{strncmp_eq}

-- Whether the text begins with the other.
abbrev pub is_prefix : Text → Text → Bool
is_prefix [] text = true
is_prefix (c ∷ path) [] = false
is_prefix (c ∷ path) (d ∷ text) = (c == d) && is_prefix path text

HoldsText-tail :
    (m : Memory) (p c : ℕ) (text : Text) → HoldsText m p (c ∷ text) → HoldsText m (p + 1) text
HoldsText-tail m p c text h i small = ap (λ a. some (m a)) (omega arith) ∙ h (suc i) (omega arith)

HoldsText-head : (m : Memory) (p c : ℕ) (text : Text) → HoldsText m p (c ∷ text) → m p ≡ c
HoldsText-head m p c text h = some_inj (ap (λ a. some (m a)) (omega arith) ∙ h 0 (omega arith))
  where
    some_inj : {a b : ℕ} → some a ≡ some b → a ≡ b
    some_inj e = cc

pub strncmp_eq-is_prefix :
    (text path : Text) (m : Memory) (p : ℕ)
    → HoldsText m p path
    → All (λ c. c ≢ 0) path
    → strncmp_eq text m p (length path) ≡ is_prefix path text
unfolding strncmp_eq
strncmp_eq-is_prefix text [] m p h no_nul = refl
strncmp_eq-is_prefix [] (c ∷ path) m p h no_nul =
    ground (arith, HoldsText-head m p c path h, no_nul.0)
strncmp_eq-is_prefix (d ∷ text) (c ∷ path) m p h no_nul =
    ap₂ ◌&&◌ (ap (λ x. x == d) (HoldsText-head m p c path h))
      (strncmp_eq-is_prefix text path m (p + 1) (HoldsText-tail m p c path h) no_nul.1)
