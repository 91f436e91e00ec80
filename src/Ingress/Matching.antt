-- ===== src/Ingress/Matching.antt =====
-- The first rule that matches decides.
use sievetube.Prelude.{
  text_eq, ◌≡◌, ◌↔◌, refl, Text, true, false, Option, List, [], ◌∷◌, ◌++◌, ok, any, arith,
  Bool-cases, inl, inr,
}
use sievetube.Config.{Protocol}
use sievetube.Ingress.{Target, IngressRule, parse_target, rule_matches, match_request}

module _ {A : Type 0} (parse_addr : Text → Option A) where
  -- A rule that matches behind rules that do not, whose target is the given one.
  pub record IsFirst (rules : List IngressRule) (hostname : Text) (protocol : Protocol)
      (t : Target A) : Type 0 where
    pub front : List IngressRule
    pub rule : IngressRule
    pub back : List IngressRule
    pub split : rules ≡ front ++ rule ∷ back
    pub passed : any (rule_matches hostname protocol) front ≡ false
    pub hit : rule_matches hostname protocol rule ≡ true
    pub parsed : parse_target parse_addr rule.target ≡ ok t

  first :
      (rules : List IngressRule) (h : Text) (p : Protocol) (t : Target A)
      → match_request parse_addr rules h p ≡ ok t
      → IsFirst rules h p t
  unfolding match_request
  first [] h p t m = ground arith
  first (r ∷ rs) h p t m = elim (Bool-cases (rule_matches h p r)) [
    | inl hit ↦ record {
      front = [];
      rule = r;
      back = rs;
      split = refl;
      passed = refl;
      hit = hit;
      parsed = ground arith;
    }
    | inr missed ↦
        let f = first rs h p t (ground arith) in
        record {
          front = r ∷ f.front;
          rule = f.rule;
          back = f.back;
          split = ground (arith, f.split);
          passed = ground (arith, f.passed);
          hit = f.hit;
          parsed = f.parsed;
        }
  ]

  matched :
      (front : List IngressRule) (r : IngressRule) (back : List IngressRule) (h : Text)
      (p : Protocol) (t : Target A)
      → any (rule_matches h p) front ≡ false
      → rule_matches h p r ≡ true
      → parse_target parse_addr r.target ≡ ok t
      → match_request parse_addr (front ++ r ∷ back) h p ≡ ok t
  unfolding match_request
  matched [] r back h p t passed hit parsed = ground arith
  matched (x ∷ front) r back h p t passed hit parsed = ground (arith, matched front r back h p t)

  -- A request is matched to a target exactly if a rule matches it, no rule above that one does, and
  -- the rule's target is parsed to this target.
  pub match_request-ok_iff :
      (rules : List IngressRule) (h : Text) (p : Protocol) (t : Target A)
      → (match_request parse_addr rules h p ≡ ok t) ↔ IsFirst rules h p t
  match_request-ok_iff rules h p t = (
    first rules h p t,
    λ f. rw f.split (matched f.front f.rule f.back h p t f.passed f.hit f.parsed),
  )
