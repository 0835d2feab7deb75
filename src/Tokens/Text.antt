-- ===== src/Tokens/Text.antt =====
-- The methods of Python's `str` that src/saas_job_api/jwt_tokens.py, passwords.py and auth.py use,
-- on lists of code points.
use Prim.Native.Char.{code}
use mathlib.Core.Path.{ap, ◌∙◌, sym}
use saas_job_api.Prelude.{
  ℕ, zero, suc, String, ◌≡◌, ◌↔◌, refl, inl, inr, Bool, true, false, ◌&&◌, List, [], ◌∷◌, ◌++◌,
  arith, All, nat_beq, nat_beq_iff, if◌then◌else◌, Bool-cases,
}

-- The code points of a text.
abbrev pub codes : String → List ℕ
codes String.[] = []
codes (String.◌∷◌ c s) = code c ∷ codes s

unfoldable pub text_beq : List ℕ → List ℕ → Bool
text_beq [] [] = true
text_beq [] (y ∷ ys) = false
text_beq (x ∷ xs) [] = false
text_beq (x ∷ xs) (y ∷ ys) = nat_beq x y && text_beq xs ys

pub text_beq_iff : (a b : List ℕ) → (text_beq a b ≡ true) ↔ (a ≡ b)
unfolding text_beq
text_beq_iff [] [] = ground arith
text_beq_iff [] (y ∷ ys) = ground arith
text_beq_iff (x ∷ xs) [] = ground arith
text_beq_iff (x ∷ xs) (y ∷ ys) = ground (arith, text_beq_iff xs ys)

-- `c * n`
abbrev pub repeat : ℕ → ℕ → List ℕ
repeat zero c = []
repeat (suc n) c = c ∷ repeat n c

abbrev pub Lacks : ℕ → List ℕ → Type 0
Lacks c s = All (λ x. nat_beq x c ≡ false) s

abbrev pub push : ℕ → List (List ℕ) → List (List ℕ)
push x [] = (x ∷ []) ∷ []
push x (w ∷ ws) = (x ∷ w) ∷ ws

-- `s.split(c)`
unfoldable pub split : ℕ → List ℕ → List (List ℕ)
split c [] = [] ∷ []
split c (x ∷ xs) = let rest = split c xs in if nat_beq x c then [] ∷ rest else push x rest

abbrev is_empty : List ℕ → Bool
is_empty [] = true
is_empty (x ∷ xs) = false

-- `s.rstrip(c)`
unfoldable pub rstrip : ℕ → List ℕ → List ℕ
rstrip c [] = []
rstrip c (x ∷ xs) = let rest = rstrip c xs in if is_empty rest && nat_beq x c then [] else x ∷ rest

pub split_one : (c : ℕ) (s : List ℕ) → Lacks c s → split c s ≡ s ∷ []
unfolding split
split_one c [] h = refl
split_one c (x ∷ xs) (other, h) = rw (other, split_one c xs h) refl

pub split-append : (c : ℕ) (s t : List ℕ) → Lacks c s → split c (s ++ c ∷ t) ≡ s ∷ split c t
unfolding split
split-append c [] t h = ground arith
split-append c (x ∷ xs) t (other, h) = rw (other, split-append c xs t h) refl

-- Joining the parts with the separator gives the text back.
abbrev pub join : ℕ → List (List ℕ) → List ℕ
join c [] = []
join c (w ∷ []) = w
join c (w ∷ v ∷ ws) = w ++ c ∷ join c (v ∷ ws)

rstrip_all : (c n : ℕ) → rstrip c (repeat n c) ≡ []
unfolding rstrip
rstrip_all c zero = refl
rstrip_all c (suc n) = rw (rstrip_all c n) (ground arith)

pub rstrip-repeat : (c : ℕ) (s : List ℕ) (n : ℕ) → Lacks c s → rstrip c (s ++ repeat n c) ≡ s
unfolding rstrip
rstrip-repeat c [] n h = rstrip_all c n
rstrip-repeat c (x ∷ xs) n (other, h) = rw (rstrip-repeat c xs n h, other) (ground arith)

pub split_parts : (c : ℕ) (s : List ℕ) → (w : List ℕ) × (ws : List (List ℕ)) × (split c s ≡ w ∷ ws)
unfolding split
split_parts c [] = ([], [], refl)
split_parts c (x ∷ xs) =
    let (w, ws, e) = split_parts c xs in
    elim (Bool-cases (nat_beq x c)) [
      | inl hit ↦ ([], split c xs, rw hit refl)
      | inr miss ↦ (x ∷ w, ws, rw (miss, e) refl)
    ]

join-push :
    (c x : ℕ) (w : List ℕ) (ws : List (List ℕ)) → join c ((x ∷ w) ∷ ws) ≡ x ∷ join c (w ∷ ws)
join-push c x w [] = refl
join-push c x w (v ∷ ws) = refl

pub join-split : (c : ℕ) (s : List ℕ) → join c (split c s) ≡ s
unfolding split
join-split c [] = refl
join-split c (x ∷ xs) =
    let (w, ws, e) = split_parts c xs in
    elim (Bool-cases (nat_beq x c)) [
      | inl hit ↦
          let rest : join c (w ∷ ws) ≡ xs = ap (join c) (sym e) ∙ join-split c xs in
          rw (hit, e) (rw ((nat_beq_iff x c).0 hit) (ap (λ r. c ∷ r) rest))
      | inr miss ↦
          let rest : join c (w ∷ ws) ≡ xs = ap (join c) (sym e) ∙ join-split c xs in
          rw (miss, e) (join-push c x w ws ∙ ap (λ r. x ∷ r) rest)
    ]
