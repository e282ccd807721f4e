-- ===== src/Watch/Signature/Order.antt =====
-- src/cache.rs, `dir_signature`: the sort by name, and what it is for.
use bare_server.Base.{
  ℕ, ◌≡◌, ◌≢◌, refl, ap, ◌∙◌, true, false, List, [], ◌∷◌, arith, if◌then◌else◌, Bytes,
}
use bare_server.Cache.{fnv}
use bare_server.Cache.Walk.{is_hidden}
use bare_server.Watch.Signature.{
  Node, dir, Items, cons, name_ltb, Change, insert_visit, sort_visits, in_turn, visit, visits,
  dir_signature,
}

-- Two names of which neither is before the other are the same.
name_ltb-same : (x y : Bytes) → name_ltb x y ≡ false → name_ltb y x ≡ false → x ≡ y
unfolding name_ltb
name_ltb-same [] [] h k = refl
name_ltb-same [] (b ∷ y) h k = ground arith
name_ltb-same (a ∷ x) [] h k = ground arith
name_ltb-same (a ∷ x) (b ∷ y) h k = ground (arith, name_ltb-same x y)

name_ltb-asym : (x y : Bytes) → name_ltb x y ≡ true → name_ltb y x ≡ false
unfolding name_ltb
name_ltb-asym [] [] h = ground arith
name_ltb-asym [] (b ∷ y) h = refl
name_ltb-asym (a ∷ x) [] h = ground arith
name_ltb-asym (a ∷ x) (b ∷ y) h = ground (arith, name_ltb-asym x y)

-- A name that is not behind the first of two lies before the second.
name_ltb-before : (x y z : Bytes) → name_ltb z y ≡ true → name_ltb z x ≡ false → name_ltb x y ≡ true
unfolding name_ltb
name_ltb-before x [] [] h k = ground arith
name_ltb-before x [] (c ∷ z) h k = ground arith
name_ltb-before [] (b ∷ y) z h k = refl
name_ltb-before (a ∷ x) (b ∷ y) [] h k = ground arith
name_ltb-before (a ∷ x) (b ∷ y) (c ∷ z) h k = ground (arith, name_ltb-before x y z)

insert_visit-swap :
    (v w : Change) (vs : List Change)
    → v.0 ≢ w.0
    → insert_visit v (insert_visit w vs) ≡ insert_visit w (insert_visit v vs)
unfolding insert_visit
insert_visit-swap v w [] n = ground (arith, name_ltb-same v.0 w.0, name_ltb-asym v.0 w.0)
insert_visit-swap v w (u ∷ us) n = ground (
  arith,
  insert_visit-swap v w us n,
  name_ltb-same v.0 w.0,
  name_ltb-asym v.0 w.0,
  name_ltb-before v.0 w.0 u.0,
  name_ltb-before w.0 v.0 u.0,
)

-- The same entries, of this directory and of those behind it, in another order.
pub data Reordered : Items → Items → Type 0 where
  unmoved : {xs : Items} → Reordered xs xs
  swapped_pair :
      {a b : Bytes} {x y : Node} {xs : Items}
      → a ≢ b
      → Reordered (cons a x (cons b y xs)) (cons b y (cons a x xs))
  inside :
      {a : Bytes} {xs ys zs : Items}
      → Reordered xs ys
      → Reordered (cons a (dir xs) zs) (cons a (dir ys) zs)
  behind :
      {a : Bytes} {x : Node} {xs ys : Items}
      → Reordered xs ys
      → Reordered (cons a x xs) (cons a x ys)
  after : {xs ys zs : Items} → Reordered xs ys → Reordered ys zs → Reordered xs zs

visits-reorder :
    {xs ys : Items} → Reordered xs ys → sort_visits (visits xs) ≡ sort_visits (visits ys)
unfolding visits visit sort_visits
visits-reorder unmoved = refl
visits-reorder (swapped_pair {xs = xs} n) =
    insert_visit-swap (_, _) (_, _) (sort_visits (visits xs)) n
visits-reorder (inside {a = a} {zs = zs} r) =
    ap
      (λ vs.
        insert_visit (a, λ h. if is_hidden a then h else in_turn vs (fnv h a))
          (sort_visits (visits zs)))
      (visits-reorder r)
visits-reorder (behind {a = a} {x = x} r) =
    ap (insert_visit (a, λ h. if is_hidden a then h else visit a x h)) (visits-reorder r)
visits-reorder (after r s) = visits-reorder r ∙ visits-reorder s

-- The signature of a directory does not depend on the order in which `read_dir` lists it, or any
-- directory behind it, if no two of the entries that change places have the same name.
pub dir_signature-reorder :
    (xs ys : Items) (h : ℕ) → Reordered xs ys → dir_signature xs h ≡ dir_signature ys h
unfolding dir_signature
dir_signature-reorder xs ys h r = ap (λ vs. in_turn vs h) (visits-reorder r)
