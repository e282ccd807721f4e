-- ===== src/Config/Sound/Sites.antt =====
-- src/config.rs, `parse_config`: what an accepted file is, and which line an error quotes.
use bare_server.Base.{
  is_nil, ℕ, ◌≤◌, ◌≡◌, ◌⊎◌, inl, inr, refl, ◌∙◌, if◌then◌else◌, Bool, true, false, ◌&&◌, ◌||◌,
  Option, none, some, List, [], ◌∷◌, length, arith, Bytes, All, Bool-cases,
}
use bare_server.Text.{lines}
use bare_server.Head.Framing.{IsPrintable}
use bare_server.Redirects.{redirects_is_empty}
use bare_server.Settings.{Tuning, HeaderConfig}
use bare_server.Settings.Headers.{IsValid, apply_shared-IsValid}
use bare_server.Config.{
  unclosed_block, missing_cert, missing_key, nothing_to_serve, ConfigError, at, missing_listen,
  no_site, no_disk_cache, Outcome, accepted, rejected, then_outcome, or_at, Override, PendingSite,
  Reading, initial_reading, SiteConfig, Config,
}
use bare_server.Config.Parse.{parse_lines}
use bare_server.Config.Result.{
  Settled, override_result, apply_overrides, keyed_site, is_none, is_on_disk, or_empty,
  resolve_site, resolve_sites, new_config, checked_file, closed_file, finish_config, parse_config,
}
use bare_server.Config.Sound.{Post, IsWithin, IsTried, IsBlock, HasFinishedRules, IsSound}
use bare_server.Config.Sound.Lines.{parse_lines-Kept}

-- A site that the server can start with.
pub record IsReady (site : SiteConfig) : Type 0 where
  pub named : is_nil site.hosts ≡ false
  pub rules : HasFinishedRules site.redirects
  pub useful : (is_none site.root && redirects_is_empty site.redirects) ≡ false
  pub settings : IsValid site.tuning site.headers

pub record IsComplete (c : Config) : Type 0 where
  pub listens : (is_nil c.host || is_nil c.port) ≡ false
  pub has_site : is_nil c.sites ≡ false
  pub stores : (is_on_disk c.storage && is_nil (or_empty c.disk_cache)) ≡ false
  pub secs : c.max_response_secs ≤ 86400
  pub policy : All IsPrintable c.headers.csp
  pub sites : All IsReady c.sites

-- The errors that quote no line.
abbrev pub IsFileError : ConfigError → Type 0
IsFileError e = (e ≡ missing_listen) ⊎ (e ≡ no_site) ⊎ (e ≡ no_disk_cache)

abbrev pub IsLocated : ℕ → ConfigError → Type 0
IsLocated n e = IsWithin n e ⊎ IsFileError e

-- Overrides that were tried are applied: none is refused.
apply_overrides-accepted :
    (last : ℕ) (os : List Override) (t : Tuning) (h : HeaderConfig)
    → All (IsTried last) os
    → IsValid t h
    → (r : Settled) × (apply_overrides os t h ≡ accepted r) × IsValid r.0 r.1
unfolding apply_overrides
apply_overrides-accepted last [] t h k v = ((t, h), refl, v)
apply_overrides-accepted last (o ∷ os) t h k v =
    let (t', h', e) = k.0.shared t h in
    let (r, f, w) =
      apply_overrides-accepted last os t' h' k.1 (apply_shared-IsValid t h o.name o.value v e) in
    (r, rw (e, override_result, then_outcome) f, w)

-- The errors of a block that is closed: they are about its keys, and quote the line that opened it.
abbrev IsIncomplete : PendingSite → ConfigError → Type 0
IsIncomplete p e =
    (e ≡ at p.line missing_cert) ⊎ (e ≡ at p.line missing_key) ⊎ (e ≡ at p.line nothing_to_serve)

module _ (last : ℕ) (t : Tuning) (h : HeaderConfig) (v : IsValid t h) where
  module _ (p : PendingSite) (b : IsBlock HasFinishedRules last p) where
    keyed_site-Post : (c k : Bytes) → Post IsReady (IsIncomplete p) (keyed_site p t h c k)
    keyed_site-Post c k = elim (Bool-cases (is_none p.root && redirects_is_empty p.redirects)) [
      | inl e ↦ rw (e, Post) (inr (inr refl))
      | inr e ↦
          let (r, f, w) = apply_overrides-accepted last p.overrides t h b.tried v in
          rw (e, f, then_outcome, Post)
            (record { named = b.named; rules = b.rules; useful = e; settings = w })
    ]

    -- A closed block becomes a site with clean rules and valid settings, unless it lacks a certificate, a
    -- key, or anything to serve: no override is refused any more.
    pub resolve_site-Post : Post IsReady (IsIncomplete p) (resolve_site t h p)
    unfolding resolve_site
    resolve_site-Post = with_cert p.cert p.key
      where
        with_cert :
            (c k : Option Bytes)
            → Post IsReady (IsIncomplete p) (
                then_outcome
                  (or_at c p.line missing_cert)
                  (λ c. then_outcome (or_at k p.line missing_key) (λ k. keyed_site p t h c k)))
        with_cert none k = inl refl
        with_cert (some c) none = inr (inl refl)
        with_cert (some c) (some k) = keyed_site-Post c k

  incomplete-IsWithin :
      (p : PendingSite) (e : ConfigError)
      → IsBlock HasFinishedRules last p
      → IsIncomplete p e
      → IsWithin last e
  incomplete-IsWithin p e b (inl f) = (p.line, missing_cert, f, b.first, b.last)
  incomplete-IsWithin p e b (inr (inl f)) = (p.line, missing_key, f, b.first, b.last)
  incomplete-IsWithin p e b (inr (inr f)) = (p.line, nothing_to_serve, f, b.first, b.last)

  -- As many sites as blocks, all of them ready.
  abbrev AreReady : List PendingSite → List SiteConfig → Type 0
  AreReady ps sites = All IsReady sites × (is_nil sites ≡ is_nil ps)

  resolve_sites-Post :
      (ps : List PendingSite)
      → All (IsBlock HasFinishedRules last) ps
      → Post (AreReady ps) (IsWithin last) (resolve_sites t h ps)
  unfolding resolve_sites
  resolve_sites-Post [] k = (tt, refl)
  resolve_sites-Post (p ∷ ps) k =
      first (resolve_site t h p) (resolve_site-Post p k.0) (resolve_sites t h ps)
        (resolve_sites-Post ps k.1)
    where
      first :
          (o : Outcome SiteConfig)
          → Post IsReady (IsIncomplete p) o
          → (os : Outcome (List SiteConfig)) → Post (AreReady ps) (IsWithin last) os
          → Post
              (AreReady (p ∷ ps))
              (IsWithin last)
              (then_outcome o (λ site. then_outcome os (λ sites. accepted (site ∷ sites))))
      first (rejected e) i os j = incomplete-IsWithin p e k.0 i
      first (accepted site) i (rejected e) j = j
      first (accepted site) i (accepted sites) j = ((i, j.0), refl)

module _ (last : ℕ) (s : Reading) (w : IsSound last s) where
  test :
      (b : Bool) (x y : Outcome Config)
      → Post IsComplete (IsLocated last) x
      → (b ≡ false → Post IsComplete (IsLocated last) y)
      → Post IsComplete (IsLocated last) (if b then x else y)
  test true x y h k = h
  test false x y h k = k refl

  checked_file-Post : Post IsComplete (IsLocated last) (checked_file s)
  checked_file-Post = test (is_nil s.host || is_nil s.port) _ _ (inr (inl refl)) (λ listens.
      test (is_nil s.pending) _ _ (inr (inr (inl refl))) (λ has_site.
        test (is_on_disk s.storage && is_nil (or_empty s.disk_cache)) _ _ (inr (inr (inr refl)))
          (λ stores.
            built listens has_site stores (resolve_sites s.tuning s.headers s.pending)
              (resolve_sites-Post last s.tuning s.headers w.settings s.pending w.closed))))
    where
      built :
          (is_nil s.host || is_nil s.port) ≡ false
          → is_nil s.pending ≡ false
          → (is_on_disk s.storage && is_nil (or_empty s.disk_cache)) ≡ false
          → (o : Outcome (List SiteConfig))
          → Post (AreReady last s.tuning s.headers w.settings s.pending) (IsWithin last) o
          → Post IsComplete
              (IsLocated last)
              (then_outcome o (λ sites. accepted (new_config s sites)))
      built l h d (rejected e) k = inl k
      built l h d (accepted sites) k = record {
        listens = l;
        has_site = k.1 ∙ h;
        stores = d;
        secs = w.secs;
        policy = w.settings.policy;
        sites = k.0;
      }

  finish_config-Post : Post IsComplete (IsLocated last) (finish_config s)
  unfolding finish_config
  finish_config-Post = closed s.cur refl
    where
      closed :
          (o : Option PendingSite) → s.cur ≡ o → Post IsComplete (IsLocated last) (closed_file s o)
      closed none e = checked_file-Post
      closed (some p) e =
          let b = w.current p e in inl (p.line, unclosed_block, refl, b.first, b.last)

initial-IsSound : (last : ℕ) → IsSound last initial_reading
initial-IsSound last = record {
  settings = record { brotli = omega arith; gzip = omega arith; policy = tt };
  secs = omega arith;
  closed = tt;
  current = λ p e. absurd (ground arith);
}

-- `parse_config` on every text: a configuration that it accepts is complete (it listens, has a site, has a
-- directory if it stores on disk, and every site has names, a purpose, rules that are clean and
-- distinct, and valid settings), and an error that it reports quotes one of the lines of the text, or is
-- one of the three that are about the whole file.
pub parse_config-IsComplete :
    (text : Bytes) → Post IsComplete (IsLocated (length (lines text))) (parse_config text)
unfolding parse_config
parse_config-IsComplete text =
    let last : ℕ = length (lines text) in
    finished (parse_lines 1 (lines text) initial_reading) (
      parse_lines-Kept last 1 (lines text) initial_reading (omega arith) (omega arith)
        (initial-IsSound last))
  where
    finished :
        (o : Outcome Reading)
        → Post (IsSound (length (lines text))) (IsWithin (length (lines text))) o
        → Post IsComplete (IsLocated (length (lines text))) (then_outcome o (λ s. finish_config s))
    finished (rejected e) k = inl k
    finished (accepted s) k = finish_config-Post (length (lines text)) s k
