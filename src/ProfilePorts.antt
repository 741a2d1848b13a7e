-- ===== src/ProfilePorts.antt =====
-- crates/anne-de-breuil/src/domain/profile_ports.rs: what each firewall profile lets in.
use anne_de_breuil.Prelude.{
  In-filter, filter-In, In-filter, &&_iff, filter-In, ◌≡◌, refl, sym, ap, subst, ◌↔◌, inl, inr,
  Bool, true, ◌&&◌, List, [], ◌∷◌, map, filter, In, ◌≟◌, ≟→eq, ≟_refl,
}
use anne_de_breuil.Text.{Text}
use anne_de_breuil.Firewall.{
  FirewallRule, FirewallProfileKind, ProfileState, RuleAction, allow, inbound, RuleAction-eq,
  Direction-eq,
}
use anne_de_breuil.PortSpec.{display_label}

pub record AllowedPortEntry : Type 0 where
  pub rule_display_name : Text
  pub port_label : Text

pub record ProfilePortSummary : Type 0 where
  pub profile : FirewallProfileKind
  pub enabled : Bool
  pub default_inbound_action : RuleAction
  pub allowed : List AllowedPortEntry

abbrev pub entry_of : FirewallRule → AllowedPortEntry
entry_of rule = record {
  rule_display_name = rule.display_name;
  port_label = display_label rule.port_spec;
}

-- The two filters and the map that `summarize_inbound_ports` chains.
unfoldable pub allowed_entries : List FirewallRule → List AllowedPortEntry
allowed_entries rules = map entry_of (
    filter (λ (rule : FirewallRule). rule.action ≟ allow)
      (filter (λ (rule : FirewallRule). rule.enabled && (rule.direction ≟ inbound)) rules))

-- The closure over the profiles.
abbrev pub summary_of : List FirewallRule → ProfileState → ProfilePortSummary
summary_of rules state = record {
  profile = state.profile;
  enabled = state.enabled;
  default_inbound_action = state.default_inbound_action;
  allowed = allowed_entries rules;
}

-- `summarize_inbound_ports`.
unfoldable pub summarize_inbound_ports :
    List FirewallRule → List ProfileState → List ProfilePortSummary
summarize_inbound_ports rules profiles = map (summary_of rules) profiles

map-In :
    {A B : Type 0} (f : A → B) (b : B) (l : List A) → In b (map f l) → (a : A) × In a l × (f a ≡ b)
map-In f b [] m = absurd m
map-In f b (x ∷ l) (inl e) = (x, inl refl, sym e)
map-In f b (x ∷ l) (inr m) = let (a, n, e) = map-In f b l m in (a, inr n, e)

In-map : {A B : Type 0} (f : A → B) (a : A) (l : List A) → In a l → In (f a) (map f l)
In-map f a [] m = absurd m
In-map f a (x ∷ l) (inl e) = inl (ap f e)
In-map f a (x ∷ l) (inr m) = inr (In-map f a l m)

-- A rule that currently lets traffic in.
abbrev pub LetsIn : FirewallRule → Type 0
LetsIn rule = (rule.enabled ≡ true) × (rule.direction ≡ inbound) × (rule.action ≡ allow)

abbrev live : FirewallRule → Bool
live rule = rule.enabled && (rule.direction ≟ inbound)

abbrev allows : FirewallRule → Bool
allows rule = rule.action ≟ allow

allowed_entries_iff :
    (rules : List FirewallRule) (entry : AllowedPortEntry)
    → In entry (allowed_entries rules)
      ↔ ((rule : FirewallRule) × In rule rules × LetsIn rule × (entry_of rule ≡ entry))
unfolding allowed_entries
allowed_entries_iff rules entry = (
  (λ m.
      let (rule, n, e) = map-In entry_of entry (filter allows (filter live rules)) m in
      let (k, a) = filter-In allows rule (filter live rules) n in
      let (i, b) = filter-In live rule rules k in
      let (on, way) = (&&_iff rule.enabled (rule.direction ≟ inbound)).0 b in
      (rule, i, (on, ≟→eq rule.direction inbound way, ≟→eq rule.action allow a), e)),
  (λ (rule, i, (on, way, a), e).
      let k =
        In-filter live rule rules i
          ((&&_iff rule.enabled (rule.direction ≟ inbound)).1 (on, rw way (≟_refl inbound))) in
      let n = In-filter allows rule (filter live rules) k (rw a (≟_refl allow)) in
      subst (λ x. In x (allowed_entries rules)) e
        (In-map entry_of rule (filter allows (filter live rules)) n)),
)

-- Every profile's summary lists exactly the entries of the rules that are enabled, inbound and
-- allow, and carries the state of one of the profiles.
pub summarize_inbound_ports_iff :
    (rules : List FirewallRule) (profiles : List ProfileState) (summary : ProfilePortSummary)
    (entry : AllowedPortEntry)
    → In summary (summarize_inbound_ports rules profiles)
    → (In entry summary.allowed
        ↔ ((rule : FirewallRule) × In rule rules × LetsIn rule × (entry_of rule ≡ entry)))
      × ((state : ProfileState) × In state profiles
          × (state.profile ≡ summary.profile)
          × (state.enabled ≡ summary.enabled)
          × (state.default_inbound_action ≡ summary.default_inbound_action))
unfolding summarize_inbound_ports
summarize_inbound_ports_iff rules profiles summary entry m =
    let (state, n, same) = map-In (summary_of rules) summary profiles m in
    (
      subst
          (λ (s : ProfilePortSummary).
            In entry s.allowed
            ↔ ((rule : FirewallRule) × In rule rules × LetsIn rule × (entry_of rule ≡ entry)))
          same (allowed_entries_iff rules entry),
      (
        state,
        n,
        ap (λ (s : ProfilePortSummary). s.profile) same,
        ap (λ (s : ProfilePortSummary). s.enabled) same,
        ap (λ (s : ProfilePortSummary). s.default_inbound_action) same,
      ),
    )
