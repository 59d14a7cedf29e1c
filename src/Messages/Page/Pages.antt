-- ===== src/Messages/Page/Pages.antt =====
-- The pages of a list, one after another, are the list.
use keydesk.Prelude.{
  ◌*◌, ◌+◌, ◌++◌, ◌<◌, Bool-cases, List, Option, [], ◌^◌, ap, arith, drop, inl, inr, leb, length,
  min, none, refl, some, suc, sym, take, zero, ℕ, ◌∙◌, ◌∷◌, ◌≡◌, ◌≤◌, ltb, true, take-append-drop,
  append-nil,
}
use keydesk.Messages.Page.{page_from, paginate, Message, pos}
use keydesk.Prelude.{leb→le}

pub drop_all : {A : Type 0} (n : ℕ) (xs : List A) → length xs ≤ n → drop n xs ≡ []
drop_all zero [] h = refl
drop_all zero (x ∷ xs) h = absurd (omega (arith, h))
drop_all (suc n) [] h = refl
drop_all (suc n) (x ∷ xs) h = drop_all n xs (omega (arith, h))

take-min : {A : Type 0} (n : ℕ) (xs : List A) → take (min n (length xs)) xs ≡ take n xs
take-min zero xs =
    let none_left : min 0 (length xs) ≡ 0 = omega arith in ap (λ (k : ℕ). take k xs) none_left
take-min (suc n) [] =
    let none_left : min (suc n) 0 ≡ 0 = omega arith in ap (λ (k : ℕ). take k []) none_left
take-min (suc n) (x ∷ xs) =
    let both : min (suc n) (length (x ∷ xs)) ≡ suc (min n (length xs)) = omega arith in
    ap (λ (k : ℕ). take k (x ∷ xs)) both ∙ ap (λ ys. x ∷ ys) (take-min n xs)

slice-drop : (o l : ℕ) (ms : List Message) → drop o (take (o + l) ms) ++ drop (o + l) ms ≡ drop o ms
slice-drop zero l ms = let e : 0 + l ≡ l = omega arith in rw e (take-append-drop l ms)
slice-drop (suc o) l [] = let e : suc o + l ≡ suc (o + l) = omega arith in rw e refl
slice-drop (suc o) l (m ∷ ms) =
    let e : suc o + l ≡ suc (o + l) = omega arith in rw e (slice-drop o l ms)

-- The answers for `n` pages from an offset on, joined.
abbrev pub joined : Option (List Message) → Option (List Message) → Option (List Message)
joined none rest = none
joined (some page) none = none
joined (some page) (some rest) = some (page ++ rest)

abbrev pub pages : ℕ → ℕ → ℕ → List Message → Option (List Message)
pages zero o l ms = some []
pages (suc n) o l ms = joined (paginate ms (pos o) (pos l)) (pages n (o + l) l ms)

paginate-slice :
    (o l : ℕ) (ms : List Message)
    → length ms + l < 2 ^ 63
    → joined (paginate ms (pos o) (pos l)) (some (drop (o + l) ms)) ≡ some (drop o ms)
unfolding paginate page_from
paginate-slice o l ms h = elim (Bool-cases (leb (length ms) o)) [
  | inl e ↦
      let past = drop_all (o + l) ms (omega (arith, leb→le (length ms) o e)) in
      rw (e, past, drop_all o ms (leb→le (length ms) o e)) refl
  | inr e ↦
      let fits : ltb (o + l) (2 ^ 63) ≡ true = ground (arith, h, e) in
      rw (e, fits, take-min (o + l) ms) (ap some (slice-drop o l ms))
]

pages-drop :
    (n o l : ℕ) (ms : List Message)
    → length ms + l < 2 ^ 63
    → length ms ≤ o + n * l
    → pages n o l ms ≡ some (drop o ms)
pages-drop zero o l ms h k = ap some (sym (drop_all o ms (omega (arith, k))))
pages-drop (suc n) o l ms h k =
    rw (pages-drop n (o + l) l ms h (omega (arith, k))) (paginate-slice o l ms h)

-- Where `n` pages of a limit are as many messages as there are, and no sum of an offset and the limit
-- passes 2 ^ 63, none of the calls panics and the pages joined are the messages, in their order.
pub pages-all :
    (n l : ℕ) (ms : List Message)
    → length ms + l < 2 ^ 63
    → length ms ≤ n * l
    → pages n 0 l ms ≡ some ms
pages-all n l ms h k = pages-drop n 0 l ms h (omega (arith, k))

pub paginate-whole :
    (l : ℕ) (ms : List Message)
    → length ms ≤ l
    → length ms + l < 2 ^ 63
    → paginate ms (pos 0) (pos l) ≡ some ms
paginate-whole l ms h k =
    whole (paginate ms (pos 0) (pos l)) (drop (0 + l) ms) past (paginate-slice 0 l ms k)
  where
    past : drop (0 + l) ms ≡ []
    past = drop_all (0 + l) ms (omega (arith, h))

    whole :
        (page : Option (List Message)) (rest : List Message)
        → rest ≡ []
        → joined page (some rest) ≡ some ms
        → page ≡ some ms
    whole none rest e q = q
    whole (some page) rest e q =
        ap some (sym (append-nil page)) ∙ ap (λ l. some (page ++ l)) (sym e) ∙ q
