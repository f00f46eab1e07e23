-- ===== src/Enforcement/Grounds.antt =====
-- On what grounds ui-manager/app/lib/billing-enforcement.js blocks a host.
use hosting_control_panel.Common.{
  ◌≡◌, ◌⊎◌, refl, Bool, true, false, Option, List, [], ◌∷◌, map, All, All-select_holds, All-of_mem,
  All-map, select, is_empty, Memᴰ, Text, text, text_eq, includes, Option-cases, inl, inr, arith,
}
use hosting_control_panel.Enforcement.Plan.{
  Url, Settings, Match, Snapshot, Site, Entry, Decision, spared, blocked, decide, assign,
  assign_all, approved_hosts, to_lower_case, local_site, plan_matches, is_fresh, matches_of,
  build_plan, valid_renewal_url,
}

-- What entitles an entry of the map to be there: a match of a fresh snapshot, while enforcement is
-- on, for a website of the pilot whose service is suspended and wants the payment page; the entry's
-- page is the match's checked address, and its host one that the billing service approves.
pub record IsWarranted (parse : Text → Option Url) (snapshot : Option Snapshot)
    (settings : Settings) (e : Entry) : Type 0 where
  pub match : Match
  pub signed : Memᴰ match (matches_of snapshot)
  pub enabled : settings.enabled ≡ true
  pub fresh : is_fresh snapshot ≡ true
  pub in_pilot : includes (to_lower_case match.local_domain) settings.pilot_domains ≡ true
  pub payment_page : text_eq match.enforcement_mode (text "payment_page") ≡ true
  pub suspended : text_eq match.state (text "suspended") ≡ true
  pub page : valid_renewal_url (parse match.renewal_url) ≡ e.1
  pub page_given : is_empty e.1 ≡ false
  pub approved : includes e.0 (match.primary_domain ∷ match.aliases) ≡ true

module _ (P : Entry → Type 0) where
  All-assign : (d u : Text) (es : List Entry) → P (d, u) → All P es → All P (assign d u es)
  unfolding assign
  All-assign d u [] p h = (p, tt)
  All-assign d u (e ∷ es) p h = ground (arith, p, h, All-assign d u es p h.1)

  All-assign_all :
      (ds : List Text) (u : Text) (es : List Entry)
      → All (λ d. P (d, u)) ds
      → All P es
      → All P (assign_all ds u es)
  unfolding assign_all
  All-assign_all [] u es ps h = h
  All-assign_all (d ∷ ds) u es ps h =
      All-assign_all ds u (assign d u es) ps.1 (All-assign d u es ps.0 h)

  All-plan_matches :
      (parse : Text → Option Url) (settings : Settings) (fresh : Bool) (sites : List Site)
      (ms : List Match) (entries : List Entry)
      → ((m : Match) (site : Site) (url : Text)
          → Memᴰ m ms
          → decide parse settings fresh sites m ≡ blocked site url
          → All (λ d. P (d, url)) (approved_hosts m (to_lower_case m.local_domain) site))
      → All P entries
      → All P (plan_matches parse settings fresh sites ms entries).0
  unfolding plan_matches
  All-plan_matches parse settings fresh sites [] entries h a = a
  All-plan_matches parse settings fresh sites (m ∷ ms) entries h a =
      go
        (λ es.
          All-plan_matches parse settings fresh sites ms es
            (λ n site url here. h n site url (Memᴰ.tail here)))
        (decide parse settings fresh sites m) refl
    where
      go :
          ((es : List Entry) → All P es → All P (plan_matches parse settings fresh sites ms es).0)
          → (x : Decision) → decide parse settings fresh sites m ≡ x
          → All P (plan_matches parse settings fresh sites (m ∷ ms) entries).0
      go rest (spared why) e = rw (e, plan_matches) (rest entries a)
      go rest (blocked site url) e =
          rw (e, plan_matches)
            (rest _ (All-assign_all _ url entries (h m site url (Memᴰ.head refl) e) a))

decide-blocked :
    (parse : Text → Option Url) (settings : Settings) (fresh : Bool) (sites : List Site) (m : Match)
    (site : Site) (url : Text)
    → decide parse settings fresh sites m ≡ blocked site url
    → (settings.enabled ≡ true)
      × (fresh ≡ true)
      × (includes (to_lower_case m.local_domain) settings.pilot_domains ≡ true)
      × (text_eq m.enforcement_mode (text "payment_page") ≡ true)
      × (text_eq m.state (text "suspended") ≡ true)
      × (valid_renewal_url (parse m.renewal_url) ≡ url)
      × (is_empty url ≡ false)
unfolding decide
decide-blocked parse settings fresh sites m site url e =
    elim (Option-cases (local_site sites (to_lower_case m.local_domain))) [
      | inl missing ↦ absurd (ground (arith, missing, e))
      | inr (found, here) ↦ ground (arith, here, e)
    ]

-- Every host that a plan redirects is there on good grounds: enforcement is on, the signed snapshot is
-- fresh, and it names the host for a suspended service of the pilot that wants the payment page; the
-- page is a checked renewal address of that service.
pub build_plan-IsWarranted :
    (parse : Text → Option Url) (snapshot : Option Snapshot) (sites : List Site)
    (settings : Settings)
    → All (IsWarranted parse snapshot settings) (build_plan parse snapshot sites settings).entries
unfolding build_plan approved_hosts
build_plan-IsWarranted parse snapshot sites settings =
    All-plan_matches (IsWarranted parse snapshot settings) parse settings (is_fresh snapshot) sites
      (matches_of snapshot) [] warranted tt
  where
    warranted :
        (m : Match) (site : Site) (url : Text)
        → Memᴰ m (matches_of snapshot)
        → decide parse settings (is_fresh snapshot) sites m ≡ blocked site url
        → All
            (λ d. IsWarranted parse snapshot settings (d, url))
            (approved_hosts m (to_lower_case m.local_domain) site)
    warranted m site url here e =
        let (on, fresh, pilot, mode, state, page, given) =
          decide-blocked parse settings (is_fresh snapshot) sites m site url e in
        let names = m.primary_domain ∷ m.aliases in
        let hosts = map to_lower_case (to_lower_case m.local_domain ∷ site.aliases) in
        All-map (λ d. IsWarranted parse snapshot settings (d, url))
          (select (λ d. includes d names) hosts)
          (λ d held. record {
            match = m;
            signed = here;
            enabled = on;
            fresh = fresh;
            in_pilot = pilot;
            payment_page = mode;
            suspended = state;
            page = page;
            page_given = given;
            approved = held.1;
          })
          (All-select_holds (λ d. Unit {0}) (λ d. includes d names) hosts
            (All-of_mem (λ d. Unit {0}) hosts (λ d h. tt)))

All-none : {P : Entry → Type 0} (es : List Entry) → ((e : Entry) → P e → ⊥) → All P es → es ≡ []
All-none [] never h = refl
All-none (e ∷ es) never h = absurd (never e h.0)

-- While enforcement is off, or without a fresh signed snapshot, the plan redirects no host, whatever
-- the snapshot says.
pub fails_open :
    (parse : Text → Option Url) (snapshot : Option Snapshot) (sites : List Site)
    (settings : Settings)
    → (settings.enabled ≡ false) ⊎ (is_fresh snapshot ≡ false)
    → (build_plan parse snapshot sites settings).entries ≡ []
fails_open parse snapshot sites settings off =
    All-none (build_plan parse snapshot sites settings).entries (λ e w. refuse e w off)
      (build_plan-IsWarranted parse snapshot sites settings)
  where
    refuse :
        (e : Entry)
        → IsWarranted parse snapshot settings e
        → (settings.enabled ≡ false) ⊎ (is_fresh snapshot ≡ false)
        → ⊥
    refuse e w (inl disabled) = cc (w.enabled, disabled)
    refuse e w (inr stale) = cc (w.fresh, stale)
