-- ===== src/GoLib/Path.antt =====
-- path.Join and path.Clean.
use opni_monitoring.Prelude.{
  ℕ, Str, str_eq, codes, Bool, true, false, not, ◌&&◌, ◌||◌, List, [], ◌∷◌, ◌++◌, ◌==◌,
  if◌then◌else◌, is_empty, keep, ◌≡◌, refl, ap, ◌∙◌, arith, append_assoc, str_eq_iff,
}
use opni_monitoring.GoLib.Split.{split_on, has_byte, split_on-append, split_on_plain}

-- One element of the path; the stack holds the elements kept so far, the last one first.
unfoldable pub clean_step : Bool → List Str → Str → List Str
clean_step rooted [] seg =
    if str_eq seg [] || str_eq seg (codes ".")
    then []
    else if str_eq seg (codes "..")
    then (if rooted then [] else seg ∷ [])
    else seg ∷ []
clean_step rooted (top ∷ stack) seg =
    if str_eq seg [] || str_eq seg (codes ".")
    then top ∷ stack
    else if str_eq seg (codes "..")
    then (if str_eq top (codes "..") then seg ∷ top ∷ stack else stack)
    else seg ∷ top ∷ stack

unfoldable pub clean_from : Bool → List Str → List Str → List Str
unfolding clean_step
clean_from rooted stack [] = stack
clean_from rooted stack (seg ∷ segs) = clean_from rooted (clean_step rooted stack seg) segs

-- The elements of a stack with slashes between them.
unfoldable pub render : List Str → Str
render [] = []
render (seg ∷ []) = seg
render (seg ∷ next ∷ stack) = render (next ∷ stack) ++ (b'/' ∷ seg)

unfoldable pub is_rooted : Str → Bool
is_rooted [] = false
is_rooted (c ∷ s) = c == b'/'

unfoldable pub finish : Bool → List Str → Str
unfolding render
finish true stack = b'/' ∷ render stack
finish false [] = codes "."
finish false (seg ∷ stack) = render (seg ∷ stack)

unfoldable pub clean : Str → Str
unfolding clean_from finish is_rooted
clean p = finish (is_rooted p) (clean_from (is_rooted p) [] (split_on b'/' p))

-- The elements that are not empty, with a slash between two of them.
unfoldable pub slashed : List Str → Str
slashed [] = []
slashed (e ∷ []) = e
slashed (e ∷ f ∷ es) = e ++ (b'/' ∷ slashed (f ∷ es))

unfoldable pub join : List Str → Str
unfolding slashed clean
join es =
    let kept = keep (λ e. not (is_empty e)) es in if is_empty kept then [] else clean (slashed kept)

-- An element that path.Clean keeps as it is.
abbrev pub is_plain : Str → Bool
is_plain s =
    not (is_empty s)
    && not (str_eq s (codes "."))
    && not (str_eq s (codes ".."))
    && not (has_byte b'/' s)

clean_step_plain :
    (r : Bool) (stack : List Str) (s : Str) → is_plain s ≡ true → clean_step r stack s ≡ s ∷ stack
unfolding clean_step
clean_step_plain r [] s h = ground (arith, str_eq_iff s [])
clean_step_plain r (t ∷ stack) s h = ground (arith, str_eq_iff s [])

clean_from-append :
    (r : Bool) (stack xs ys : List Str)
    → clean_from r stack (xs ++ ys) ≡ clean_from r (clean_from r stack xs) ys
unfolding clean_from
clean_from-append r stack [] ys = refl
clean_from-append r stack (x ∷ xs) ys = clean_from-append r (clean_step r stack x) xs ys

split_on_suffix :
    (p s : Str) → is_plain s ≡ true → split_on b'/' (p ++ (b'/' ∷ s)) ≡ split_on b'/' p ++ (s ∷ [])
split_on_suffix p s h =
    split_on-append b'/' p s
    ∙ ap (λ (t : List Str). split_on b'/' p ++ t) (split_on_plain b'/' s (ground arith))

-- The stack of a path that ends in a plain element.
stack_of_suffix :
    (r : Bool) (p s : Str)
    → is_plain s ≡ true
    → clean_from r [] (split_on b'/' (p ++ (b'/' ∷ s))) ≡ s ∷ clean_from r [] (split_on b'/' p)
stack_of_suffix r p s h = rw (split_on_suffix p s h) (
    clean_from-append r [] (split_on b'/' p) (s ∷ [])
    ∙ (unfold clean_from in clean_step_plain r (clean_from r [] (split_on b'/' p)) s h))

is_rooted-append : (c : ℕ) (p s : Str) → is_rooted ((c ∷ p) ++ s) ≡ is_rooted (c ∷ p)
unfolding is_rooted
is_rooted-append c p s = refl

finish-cons :
    (r : Bool) (s t : Str) (stack : List Str)
    → finish r (s ∷ t ∷ stack) ≡ finish r (t ∷ stack) ++ (b'/' ∷ s)
unfolding finish
finish-cons true s t stack = refl
finish-cons false s t stack = refl

-- A plain element behind a path whose last kept element is `k` is put there unchanged.
clean_suffix :
    (c : ℕ) (q k s : Str) (base : List Str)
    → clean_from (is_rooted (c ∷ q)) [] (split_on b'/' (c ∷ q)) ≡ k ∷ base
    → is_plain s ≡ true
    → clean ((c ∷ q) ++ (b'/' ∷ s)) ≡ clean (c ∷ q) ++ (b'/' ∷ s)
unfolding clean
clean_suffix c q k s base e hs =
    rw (is_rooted-append c q (b'/' ∷ s), stack_of_suffix (is_rooted (c ∷ q)) (c ∷ q) s hs, e)
      (finish-cons (is_rooted (c ∷ q)) s k base)

plain_stack : (r : Bool) (k : Str) → is_plain k ≡ true → clean_from r [] (split_on b'/' k) ≡ k ∷ []
unfolding clean_from
plain_stack r k h = rw (split_on_plain b'/' k (ground arith)) (clean_step_plain r [] k h)

-- Joining prefix, kind and id, where kind and id are plain, appends the id behind a slash.
pub join_plain :
    (prefix kind id : Str)
    → is_plain kind ≡ true
    → is_plain id ≡ true
    → join (prefix ∷ kind ∷ id ∷ []) ≡ join (prefix ∷ kind ∷ []) ++ (b'/' ∷ id)
unfolding join
join_plain prefix [] id hk hi = cc
join_plain prefix (k ∷ kind) [] hk hi = cc
join_plain [] (k ∷ kind) (i ∷ id) hk hi =
    clean_suffix k kind (k ∷ kind) (i ∷ id) [] (plain_stack (is_rooted (k ∷ kind)) (k ∷ kind) hk) hi
join_plain (c ∷ prefix) (k ∷ kind) (i ∷ id) hk hi =
    rw (← append_assoc (c ∷ prefix) (b'/' ∷ k ∷ kind) (b'/' ∷ i ∷ id)) (
      clean_suffix c (prefix ++ (b'/' ∷ k ∷ kind)) (k ∷ kind) (i ∷ id)
        (clean_from (is_rooted (c ∷ prefix)) [] (split_on b'/' (c ∷ prefix)))
        (rw (is_rooted-append c prefix (b'/' ∷ k ∷ kind))
          (stack_of_suffix (is_rooted (c ∷ prefix)) (c ∷ prefix) (k ∷ kind) hk))
        hi)
