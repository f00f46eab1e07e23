-- ===== src/Enforcement/Blocking.antt =====
-- Which hosts ui-manager/app/lib/billing-enforcement.js must block.
use hosting_control_panel.Common.{
  ◌≡◌, refl, ap, subst, Bool, true, Option, List, [], ◌∷◌, any, Memᴰ, Text, text_eq, text_eq_refl,
  text_eq_sound, Bool-cases, inl, inr, arith,
}
use hosting_control_panel.Enforcement.Plan.{
  Url, Settings, Match, Snapshot, Site, Entry, Decision, spared, blocked, decide, assign,
  assign_all, approved_hosts, to_lower_case, plan_matches, is_fresh, matches_of, build_plan,
}

-- `domain in entries`
unfoldable pub has_key : Text → List Entry → Bool
unfolding any
has_key d es = any (λ e. text_eq e.0 d) es

has_key-assign_self : (d u : Text) (es : List Entry) → has_key d (assign d u es) ≡ true
unfolding has_key any assign
has_key-assign_self d u [] = rw (text_eq_refl d)
has_key-assign_self d u (e ∷ es) = ground (arith, text_eq_refl d, has_key-assign_self d u es)

has_key-assign :
    (k d u : Text) (es : List Entry) → has_key k es ≡ true → has_key k (assign d u es) ≡ true
unfolding has_key any assign
has_key-assign k d u [] h = cc
has_key-assign k d u (e ∷ es) h = elim (Bool-cases (text_eq e.0 d)) [
  | inl same ↦
      let moved : text_eq e.0 k ≡ text_eq d k = ap (λ x. text_eq x k) (text_eq_sound e.0 d same) in
      ground (arith, same, h, moved)
  | inr other ↦ elim (Bool-cases (text_eq e.0 k)) [
    | inl here ↦ ground (arith, other, here)
    | inr away ↦ ground (arith, other, away, h, has_key-assign k d u es)
  ]
]

has_key-assign_all :
    (k u : Text) (ds : List Text) (es : List Entry)
    → has_key k es ≡ true
    → has_key k (assign_all ds u es) ≡ true
unfolding assign_all
has_key-assign_all k u [] es h = h
has_key-assign_all k u (d ∷ ds) es h =
    has_key-assign_all k u ds (assign d u es) (has_key-assign k d u es h)

has_key-assigned :
    (k u : Text) (ds : List Text) (es : List Entry)
    → Memᴰ k ds
    → has_key k (assign_all ds u es) ≡ true
unfolding assign_all
has_key-assigned k u [] es h = elim h [ ]
has_key-assigned k u (d ∷ ds) es (Memᴰ.head e) =
    has_key-assign_all k u ds (assign d u es) (rw e (has_key-assign_self d u es))
has_key-assigned k u (d ∷ ds) es (Memᴰ.tail h) = has_key-assigned k u ds (assign d u es) h

plan_matches-step :
    (parse : Text → Option Url) (settings : Settings) (fresh : Bool) (sites : List Site) (k : Text)
    (m : Match) (ms : List Match) (entries : List Entry)
    → ((es : List Entry)
        → has_key k es ≡ true
        → has_key k (plan_matches parse settings fresh sites ms es).0 ≡ true)
    → has_key k entries ≡ true
    → has_key k (plan_matches parse settings fresh sites (m ∷ ms) entries).0 ≡ true
unfolding plan_matches
plan_matches-step parse settings fresh sites k m ms entries rest h =
    go (decide parse settings fresh sites m) refl
  where
    go :
        (x : Decision)
        → decide parse settings fresh sites m ≡ x
        → has_key k (plan_matches parse settings fresh sites (m ∷ ms) entries).0 ≡ true
    go (spared why) e = rw (e, plan_matches) (rest entries h)
    go (blocked site url) e =
        rw (e, plan_matches)
          (rest _ (
            has_key-assign_all k url (approved_hosts m (to_lower_case m.local_domain) site) entries
              h))

has_key-plan_matches :
    (parse : Text → Option Url) (settings : Settings) (fresh : Bool) (sites : List Site) (k : Text)
    (ms : List Match) (entries : List Entry)
    → has_key k entries ≡ true
    → has_key k (plan_matches parse settings fresh sites ms entries).0 ≡ true
unfolding plan_matches
has_key-plan_matches parse settings fresh sites k [] entries h = h
has_key-plan_matches parse settings fresh sites k (m ∷ ms) entries h =
    plan_matches-step parse settings fresh sites k m ms entries
      (has_key-plan_matches parse settings fresh sites k ms) h

has_key-decided :
    (parse : Text → Option Url) (settings : Settings) (fresh : Bool) (sites : List Site) (k : Text)
    (m : Match) (site : Site) (url : Text) (ms : List Match) (entries : List Entry)
    → Memᴰ m ms
    → decide parse settings fresh sites m ≡ blocked site url
    → Memᴰ k (approved_hosts m (to_lower_case m.local_domain) site)
    → has_key k (plan_matches parse settings fresh sites ms entries).0 ≡ true
unfolding plan_matches
has_key-decided parse settings fresh sites k m site url [] entries h e here = elim h [ ]
has_key-decided parse settings fresh sites k m site url (n ∷ ms) entries (Memᴰ.head same) e here =
    let decided : decide parse settings fresh sites n ≡ blocked site url =
      subst (λ (x : Match). decide parse settings fresh sites x ≡ blocked site url) same e in
    let listed : Memᴰ k (approved_hosts n (to_lower_case n.local_domain) site) =
      subst (λ (x : Match). Memᴰ k (approved_hosts x (to_lower_case x.local_domain) site)) same
        here in
    rw (decided, plan_matches)
      (has_key-plan_matches parse settings fresh sites k ms _ (
        has_key-assigned k url (approved_hosts n (to_lower_case n.local_domain) site) entries
          listed))
has_key-decided parse settings fresh sites k m site url (n ∷ ms) entries (Memᴰ.tail h) e here =
    go (decide parse settings fresh sites n) refl
      (λ es. has_key-decided parse settings fresh sites k m site url ms es h e here)
  where
    go :
        (x : Decision)
        → decide parse settings fresh sites n ≡ x
        → ((es : List Entry) → has_key k (plan_matches parse settings fresh sites ms es).0 ≡ true)
        → has_key k (plan_matches parse settings fresh sites (n ∷ ms) entries).0 ≡ true
    go (spared why) d rest = rw (d, plan_matches) (rest entries)
    go (blocked s u) d rest = rw (d, plan_matches) (rest _)

-- Every host that must be blocked is: where the conditions on a match of the snapshot come out as
-- blocked, each of its website's hosts that the billing service approves is redirected, whatever the
-- other matches say.
pub plan_blocks :
    (parse : Text → Option Url) (snapshot : Option Snapshot) (sites : List Site)
    (settings : Settings) (host : Text) (m : Match) (site : Site) (url : Text)
    → Memᴰ m (matches_of snapshot)
    → decide parse settings (is_fresh snapshot) sites m ≡ blocked site url
    → Memᴰ host (approved_hosts m (to_lower_case m.local_domain) site)
    → has_key host (build_plan parse snapshot sites settings).entries ≡ true
unfolding build_plan
plan_blocks parse snapshot sites settings host m site url signed decided here =
    has_key-decided parse settings (is_fresh snapshot) sites host m site url (matches_of snapshot)
      [] signed decided here
