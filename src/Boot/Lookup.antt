-- ===== src/Boot/Lookup.antt =====
-- src/main.rs, `build_vhosts`: the table of the hosts.
use bare_server.Base.{
  ℕ, ◌+◌, ◌≡◌, inl, inr, refl, ap, ◌∙◌, subst, Bool, true, false, Option, some, List, [], ◌∷◌,
  arith, ltb, if◌then◌else◌, Bytes, Bool-cases, All,
}
use bare_server.Text.{beq, beq_iff, Table, get, insert, get-insert}
use bare_server.Response.{errors_retained_bytes}
use bare_server.Site.{Site, Vhosts}
use bare_server.Config.{SiteConfig, Config}
use bare_server.Cache.{BuildPolicy, is_some}
use bare_server.Cache.Walk.{Entries}
use bare_server.Cache.Walk.Found.{insert-All}
use bare_server.Boot.{
  site_policy, budget_too_small, Booted, up, failed, then_booted, Boot, insert_hosts, Opened,
  open_root, new_site, named_site, build_site, build_sites, build_vhosts,
}

-- The site of the table is built from the site of the configuration.
pub record IsSiteOf (cfg : Config) (s : SiteConfig) (site : Site) : Type 0 where
  pub redirects : site.redirects ≡ s.redirects
  pub force_ssl : site.force_ssl ≡ s.force_ssl
  pub canonical_urls : site.canonical_urls ≡ s.canonical_urls
  pub policy : site.policy ≡ (site_policy cfg s).served

-- Every name of the site leads to a site that is built from it.
abbrev pub IsNamed : Config → Table Site → SiteConfig → Type 0
IsNamed cfg sites s =
    All (λ host. (site : Site) × (get host sites ≡ some site) × IsSiteOf cfg s site) s.hosts

then_booted-eq-up {ℓ κ} :
    {A : Type ℓ} {B : Type κ} (o : Booted A) (f : A → Booted B) {b : B}
    → then_booted o f ≡ up b
    → (a : A) × (o ≡ up a) × (f a ≡ up b)
then_booted-eq-up (up a) f h = (a, refl, h)
then_booted-eq-up (failed e) f h = absurd (ground arith)

up-injective {ℓ} : {A : Type ℓ} (x y : A) → ◌≡◌ {A = Booted A} (up x) (up y) → x ≡ y
up-injective x y e = cc

-- What the table had, it has.
abbrev IsKept : Table Site → Table Site → Type 0
IsKept sites sites' =
    (host : Bytes) (site : Site) → get host sites ≡ some site → get host sites' ≡ some site

insert-IsKept :
    (k : Bytes) (v : Site) (sites : Table Site)
    → is_some (get k sites) ≡ false
    → IsKept sites (insert k v sites)
insert-IsKept k v sites fresh host site h = get-insert k host v sites ∙ other (beq k host) refl
  where
    other : (b : Bool) → beq k host ≡ b → (if b then some v else get host sites) ≡ some site
    other false e = h
    other true e =
        let same : k ≡ host = (beq_iff k host).0 e in
        absurd (
          let f : is_some (get host sites) ≡ false =
            subst (λ x. is_some (get x sites) ≡ false) same fresh in
          let g : is_some (get host sites) ≡ true = ap is_some h in ground (arith, f, g))

insert-found : (k : Bytes) (v : Site) (sites : Table Site) → get k (insert k v sites) ≡ some v
insert-found k v sites = get-insert k k v sites ∙ rw ((beq_iff k k).1 refl) refl

-- The names of a site that are inserted, and the sites that are kept.
insert_hosts-names :
    (site : Site) (hosts : List Bytes) (sites : Table Site) {sites' : Table Site}
    → insert_hosts site hosts sites ≡ up sites'
    → IsKept sites sites' × All (λ host. get host sites' ≡ some site) hosts
unfolding insert_hosts
insert_hosts-names site [] sites {sites'} h =
    (subst (IsKept sites) (up-injective sites sites' h) (λ host s e. e), tt)
insert_hosts-names site (k ∷ ks) sites {sites'} h = elim (Bool-cases (is_some (get k sites))) [
  | inl e ↦ absurd (let f = rw e at h in ground arith)
  | inr e ↦
      let (keeps, names) =
        insert_hosts-names site ks (insert k site sites) (let f = rw e at h in f) in
      (
        (λ host s f. keeps host s (insert-IsKept k site sites e host s f)),
        (keeps k site (insert-found k site sites), names),
      )
]

insert_hosts-All :
    (R : Site → Type 0) (site : Site) (hosts : List Bytes) (sites : Table Site)
    {sites' : Table Site}
    → R site
    → insert_hosts site hosts sites ≡ up sites'
    → All (λ e. R e.1) sites
    → All (λ e. R e.1) sites'
unfolding insert_hosts
insert_hosts-All R site [] sites {sites'} r h a =
    subst (All (λ e. R e.1)) (up-injective sites sites' h) a
insert_hosts-All R site (k ∷ ks) sites {sites'} r h a = elim (Bool-cases (is_some (get k sites))) [
  | inl e ↦ absurd (let f = rw e at h in ground arith)
  | inr e ↦
      insert_hosts-All R site ks (insert k site sites) r (let f = rw e at h in f)
        (insert-All (λ x. R x.1) k site sites r a)
]

module _ (gzip_compress brotli_compress : Bytes → ℕ → Bytes) (can_write : Bytes → Bool)
    (canonicalize : Bytes → Option Bytes) (is_dir : Bytes → Bool)
    (read_dir : Bytes → Option Entries) where
  -- The site that a turn of the loop inserts.
  build_site-inserts :
      (cfg : Config) (b : Boot) (s : SiteConfig) {b' : Boot}
      → build_site gzip_compress brotli_compress can_write canonicalize is_dir read_dir cfg b s
        ≡ up b'
      → (site : Site) × IsSiteOf cfg s site × (insert_hosts site s.hosts b.sites ≡ up b'.sites)
  unfolding build_site
  build_site-inserts cfg b s h =
      let p : BuildPolicy = site_policy cfg s in
      let set : ℕ = errors_retained_bytes p.served.errors in
      charged p set refl (ltb p.t.max_total_bytes (b.total + set)) h
    where
      named :
          (p : BuildPolicy) (o : Opened) {b' : Boot}
          → p ≡ site_policy cfg s
          → named_site gzip_compress brotli_compress can_write canonicalize is_dir read_dir s p
              b.sites o
            ≡ up b'
          → (site : Site) × IsSiteOf cfg s site × (insert_hosts site s.hosts b.sites ≡ up b'.sites)
      named p o {b'} e k =
          let site : Site =
            new_site gzip_compress brotli_compress can_write canonicalize is_dir read_dir s p o in
          let (sites, first, rest) = then_booted-eq-up (insert_hosts site s.hosts b.sites) _ k in
          (
            site,
            record {
              redirects = refl;
              force_ssl = refl;
              canonical_urls = refl;
              policy = ap (λ x. x.served) e;
            },
            first ∙ ap (λ x. up x.sites) (up-injective _ b' rest),
          )

      charged :
          (p : BuildPolicy) (set : ℕ) {b' : Boot}
          → p ≡ site_policy cfg s
          → (over : Bool)
          → (if over
              then failed (budget_too_small (b.total + set) set)
              else then_booted
                  (open_root gzip_compress brotli_compress can_write canonicalize is_dir read_dir
                    s.root p
                    (b.total + set)
                    b.seq)
                  (λ o.
                    named_site gzip_compress brotli_compress can_write canonicalize is_dir read_dir
                      s p b.sites o))
            ≡ up b'
          → (site : Site) × IsSiteOf cfg s site × (insert_hosts site s.hosts b.sites ≡ up b'.sites)
      charged p set e true k = absurd (ground arith)
      charged p set e false k =
          let (o, first, rest) =
            then_booted-eq-up
              (open_root gzip_compress brotli_compress can_write canonicalize is_dir read_dir s.root
                p (b.total + set) b.seq)
              (λ o.
                named_site gzip_compress brotli_compress can_write canonicalize is_dir read_dir s p
                  b.sites o)
              k in
          named p o e rest

  named-IsKept :
      (cfg : Config) (s : SiteConfig) (hosts : List Bytes) (site : Site) (sites sites' : Table Site)
      → IsSiteOf cfg s site
      → IsKept sites sites'
      → All (λ host. get host sites ≡ some site) hosts
      → All (λ host. (site : Site) × (get host sites' ≡ some site) × IsSiteOf cfg s site) hosts
  named-IsKept cfg s [] site sites sites' i k h = tt
  named-IsKept cfg s (host ∷ hosts) site sites sites' i k h =
      ((site, k host site h.0, i), named-IsKept cfg s hosts site sites sites' i k h.1)

  build_sites-names :
      (cfg : Config) (ss : List SiteConfig) (b : Boot) {b' : Boot}
      → build_sites gzip_compress brotli_compress can_write canonicalize is_dir read_dir cfg ss b
        ≡ up b'
      → IsKept b.sites b'.sites × All (IsNamed cfg b'.sites) ss
  unfolding build_sites
  build_sites-names cfg [] b {b'} h =
      (subst (λ x. IsKept b.sites x.sites) (up-injective b b' h) (λ host s e. e), tt)
  build_sites-names cfg (s ∷ ss) b {b'} h =
      let (m, first, rest) =
        then_booted-eq-up
          (build_site gzip_compress brotli_compress can_write canonicalize is_dir read_dir cfg b s)
          _ h in
      let (site, i, e) = build_site-inserts cfg b s first in
      let (keeps, names) = insert_hosts-names site s.hosts b.sites e in
      let (keeps', names') = build_sites-names cfg ss m rest in
      (
        (λ host v f. keeps' host v (keeps host v f)),
        (named-IsKept cfg s s.hosts site m.sites b'.sites i keeps' names, names'),
      )

  build_sites-All :
      (R : Site → Type 0) (cfg : Config) (ss : List SiteConfig) (b : Boot) {b' : Boot}
      → All (λ s. (site : Site) → IsSiteOf cfg s site → R site) ss
      → build_sites gzip_compress brotli_compress can_write canonicalize is_dir read_dir cfg ss b
        ≡ up b'
      → All (λ e. R e.1) b.sites
      → All (λ e. R e.1) b'.sites
  unfolding build_sites
  build_sites-All R cfg [] b {b'} r h a =
      subst (λ x. All (λ e. R e.1) x.sites) (up-injective b b' h) a
  build_sites-All R cfg (s ∷ ss) b {b'} r h a =
      let (m, first, rest) =
        then_booted-eq-up
          (build_site gzip_compress brotli_compress can_write canonicalize is_dir read_dir cfg b s)
          _ h in
      let (site, i, e) = build_site-inserts cfg b s first in
      build_sites-All R cfg ss m r.1 rest (insert_hosts-All R site s.hosts b.sites (r.0 site i) e a)

  -- Every name of the configuration leads to its own site: the table holds, under each host name of each
  -- site, a site with the rules, the flags and the policy of that site.
  pub build_vhosts-IsNamed :
      (cfg : Config) (seq : ℕ) {v : Vhosts}
      → build_vhosts gzip_compress brotli_compress can_write canonicalize is_dir read_dir cfg seq
        ≡ up v
      → All (IsNamed cfg v.sites) cfg.sites
  unfolding build_vhosts
  build_vhosts-IsNamed cfg seq {v} h =
      let (b, first, rest) = then_booted-eq-up _ _ h in
      subst (λ x. All (IsNamed cfg x.sites) cfg.sites) (up-injective _ v rest)
        (build_sites-names cfg cfg.sites _ first).1

  -- What holds of every site that is built from the configuration holds of every site of the table, whose
  -- ports are those of the configuration.
  pub build_vhosts-All :
      (R : Site → Type 0) (cfg : Config) (seq : ℕ) {v : Vhosts}
      → All (λ s. (site : Site) → IsSiteOf cfg s site → R site) cfg.sites
      → build_vhosts gzip_compress brotli_compress can_write canonicalize is_dir read_dir cfg seq
        ≡ up v
      → All (λ e. R e.1) v.sites × (v.https_port ≡ cfg.port) × (v.http_port ≡ cfg.http_port)
  unfolding build_vhosts
  build_vhosts-All R cfg seq {v} r h =
      let (b, first, rest) = then_booted-eq-up _ _ h in
      subst
        (λ x. All (λ e. R e.1) x.sites × (x.https_port ≡ cfg.port) × (x.http_port ≡ cfg.http_port))
        (up-injective _ v rest) (build_sites-All R cfg cfg.sites _ r first tt, refl, refl)
