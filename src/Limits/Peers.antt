-- ===== src/Limits/Peers.antt =====
-- src/main.rs, `PeerLimiter`: its operations as steps, and what each does to the counts.
use bare_server.Base.{
  ℕ, ◌+◌, ◌-◌, ◌<◌, ◌≡◌, ◌≢◌, ◌⊎◌, refl, Bool, true, false, ◌&&◌, Option, none, some, List, [], ◌∷◌,
  ◌++◌, arith, if◌then◌else◌, Bytes, inl, inr,
}
use bare_server.Text.{beq, beq_iff, beq_refl, Table, get, insert, get-insert}
use bare_server.Limits.{
  PeerLimiter, PeerPermit, new_limiter, set_max, try_acquire, drop_permit, lowered, remove, or_zero,
}

get-remove : (k j : Bytes) (m : Table ℕ) → get j (remove k m) ≡ (if beq k j then none else get j m)
unfolding get remove
get-remove k j [] = ground arith
get-remove k j ((i, w) ∷ m) =
    ground (arith, beq_iff k j, beq_iff i k, beq_iff i j, get-remove k j m)

-- The limiter, and the permits that are alive.
pub record World : Type 0 where
  pub limiter : PeerLimiter
  pub live : List PeerPermit

-- One operation on the limiter, by any thread.
pub data Step (w : World) : World → Type 0 where
  acquired :
      {l : PeerLimiter} {p : PeerPermit} (ip : Bytes)
      → try_acquire w.limiter ip ≡ (l, some p)
      → Step w (record { limiter = l; live = p ∷ w.live })
  refused :
      {l : PeerLimiter} (ip : Bytes)
      → try_acquire w.limiter ip ≡ (l, none)
      → Step w (record { limiter = l; live = w.live })
  dropped :
      (before : List PeerPermit) (p : PeerPermit) (after : List PeerPermit)
      → w.live ≡ before ++ (p ∷ after)
      → Step w (record { limiter = drop_permit p w.limiter; live = before ++ after })
  reset : (max : ℕ) → Step w (record { limiter = set_max max w.limiter; live = w.live })

pub data Reachable (max : ℕ) : World → Type 0 where
  start : Reachable max (record { limiter = new_limiter max; live = [] })
  step : {w v : World} → Reachable max w → Step w v → Reachable max v

abbrev pub weight : Bytes → PeerPermit → ℕ
weight ip p = if p.counted && beq p.ip ip then 1 else 0

-- How many of the permits count for an address.
abbrev pub held : Bytes → List PeerPermit → ℕ
held ip [] = 0
held ip (p ∷ ps) = weight ip p + held ip ps

held-append : (ip : Bytes) (ps qs : List PeerPermit) → held ip (ps ++ qs) ≡ held ip ps + held ip qs
held-append ip [] qs = omega arith
held-append ip (p ∷ ps) qs = omega (arith, held-append ip ps qs)

-- The map holds for each address the number of its live permits, and no entry for an address without.
pub record IsBalanced (w : World) : Type 0 where
  pub counted : (ip : Bytes) → or_zero (get ip w.limiter.counts) ≡ held ip w.live
  pub positive : (ip : Bytes) → get ip w.limiter.counts ≢ some 0

abbrev pub Balance : Table ℕ → List PeerPermit → Bytes → Type 0
Balance counts live ip = (or_zero (get ip counts) ≡ held ip live) × (get ip counts ≢ some 0)

abbrev GrantedAs : PeerLimiter → Bytes → PeerLimiter → PeerPermit → Type 0
GrantedAs l ip l' p =
    ((l'.counts ≡ l.counts) × (p ≡ record { ip = ip; counted = false }))
    ⊎ ((l'.counts ≡ insert ip (or_zero (get ip l.counts) + 1) l.counts)
        × (p ≡ record { ip = ip; counted = true }))

granted :
    (l : PeerLimiter) (ip : Bytes) {l' : PeerLimiter} {p : PeerPermit}
    → try_acquire l ip ≡ (l', some p)
    → GrantedAs l ip l' p
unfolding try_acquire
granted l ip {l'} {p} e = ground arith

count_in :
    (k j : Bytes) (n : ℕ) (m : Table ℕ)
    → or_zero (get j (insert k n m)) ≡ (if beq k j then n else or_zero (get j m))
count_in k j n m = ground (arith, get-insert k j n m)

pub acquired-Balance :
    (l : PeerLimiter) (ip : Bytes) (live : List PeerPermit) {l' : PeerLimiter} {p : PeerPermit}
    → ((j : Bytes) → Balance l.counts live j)
    → try_acquire l ip ≡ (l', some p)
    → (j : Bytes) → Balance l'.counts (p ∷ live) j
acquired-Balance l ip live {l'} {p} b e j = elim (granted l ip {l' = l'} {p = p} e) [
  | inl (c, q) ↦ rw (c, q) (omega (arith, (b j).0), (b j).1)
  | inr (c, q) ↦ rw (c, q) (counted_more (get ip l.counts) (b ip) (b j))
]
  where
    counted_more :
        (o : Option ℕ)
        → Balance l.counts live ip
        → Balance l.counts live j
        → Balance
            (insert ip (or_zero (get ip l.counts) + 1) l.counts)
            (record { ip = ip; counted = true } ∷ live)
            j
    counted_more o h k =
        ground (arith, beq_iff ip j, get-insert ip j (or_zero (get ip l.counts) + 1) l.counts)

-- What an address holds without one of its permits.
abbrev WithoutPermit : Table ℕ → Table ℕ → Bytes → Bytes → Type 0
WithoutPermit counts counts' ip j =
    (or_zero (get j counts') ≡ or_zero (get j counts) - (if beq ip j then 1 else 0))
    × (get j counts' ≢ some 0)

lowered-WithoutPermit :
    (counts : Table ℕ) (ip j : Bytes) (o : Option ℕ)
    → get ip counts ≡ o
    → 0 < or_zero o
    → get j counts ≢ some 0
    → WithoutPermit counts (lowered ip o counts) ip j
lowered-WithoutPermit counts ip j none e h k = absurd (omega arith)
lowered-WithoutPermit counts ip j (some n) e h k = ground (
  arith,
  beq_iff ip j,
  get-insert ip j (n - 1) counts,
  get-remove ip j (insert ip (n - 1) counts),
)

module _ (l : PeerLimiter) (before : List PeerPermit) (ip : Bytes) (after : List PeerPermit) where
  uncounted-Balance :
      (j : Bytes)
      → Balance l.counts (before ++ (record { ip = ip; counted = false } ∷ after)) j
      → Balance l.counts (before ++ after) j
  uncounted-Balance j b = (
    omega (
      arith,
      b.0,
      held-append j before after,
      held-append j before (record { ip = ip; counted = false } ∷ after),
    ),
    b.1,
  )

  counted-Balance :
      (j : Bytes)
      → Balance l.counts (before ++ (record { ip = ip; counted = true } ∷ after)) ip
      → Balance l.counts (before ++ (record { ip = ip; counted = true } ∷ after)) j
      → Balance (lowered ip (get ip l.counts) l.counts) (before ++ after) j
  counted-Balance j own b =
      let here = held-append ip before (record { ip = ip; counted = true } ∷ after) in
      let one = beq_refl ip in
      let (w, z) =
        lowered-WithoutPermit l.counts ip j (get ip l.counts) refl
          (ground (arith, own.0, here, one)) b.1 in
      (
        ground (
          arith,
          w,
          b.0,
          held-append j before after,
          held-append j before (record { ip = ip; counted = true } ∷ after),
        ),
        z,
      )

pub dropped-Balance :
    (l : PeerLimiter) (c : Bool) (ip : Bytes) (before after : List PeerPermit)
    → ((j : Bytes) → Balance l.counts (before ++ (record { ip = ip; counted = c } ∷ after)) j)
    → (j : Bytes)
    → Balance (drop_permit (record { ip = ip; counted = c }) l).counts (before ++ after) j
unfolding drop_permit
dropped-Balance l true ip before after b j = counted-Balance l before ip after j (b ip) (b j)
dropped-Balance l false ip before after b j = uncounted-Balance l before ip after j (b j)

refused_at_cap :
    (l : PeerLimiter) (ip : Bytes) {l' : PeerLimiter}
    → try_acquire l ip ≡ (l', none)
    → (l'.counts ≡ insert ip (or_zero (get ip l.counts)) l.counts) × (0 < or_zero (get ip l.counts))
unfolding try_acquire
refused_at_cap l ip {l'} e = ground arith

insert-same :
    (counts : Table ℕ) (ip j : Bytes) (live : List PeerPermit)
    → 0 < or_zero (get ip counts)
    → Balance counts live j
    → Balance (insert ip (or_zero (get ip counts)) counts) live j
insert-same counts ip j live h b =
    ground (arith, beq_iff ip j, get-insert ip j (or_zero (get ip counts)) counts)

pub refused-counts :
    (l : PeerLimiter) (ip : Bytes) {l' : PeerLimiter} (live : List PeerPermit)
    → ((j : Bytes) → Balance l.counts live j)
    → try_acquire l ip ≡ (l', none)
    → (j : Bytes) → Balance l'.counts live j
refused-counts l ip {l'} live b e j =
    let (c, h) = refused_at_cap l ip {l' = l'} e in rw c (insert-same l.counts ip j live h (b j))
