-- ===== src/Dns/Compile/Placed.antt =====
-- What a compiled configuration may touch.
use sievetube.Prelude.{
  text_eq, nat_eq, ◌≡◌, ◌∙◌, refl, sym, subst, Text, ◌==◌, any, Bool, true, false, some, List, [],
  ◌∷◌, ◌++◌, ok, >>=-eq-ok, arith, Option-cases, Result-cases, Bool-cases, inl, inr,
}
use sievetube.Prelude.Predicates.{All, All-append}
use sievetube.Hostname.{normalize_hostname, normalize_dns_name, is_within_zone}
use sievetube.Dns.{record_type_eq}
use sievetube.Dns.Plan.{DesiredRecord}
use sievetube.Dns.Compile.{
  DnsProviderConfig, DnsRecordConfig, DnsConfig, ProviderSpec, CompiledDns, Parsers,
  normalize_zones, normalize_values, check_settings, allowed_in, compile_provider,
  compile_providers,
}
use sievetube.Dns.Compile.Records.{
  find_spec, is_reserved, ttl_allowed, check_name, check_record, same_key, desired_of,
  compile_named, compile_record, compile_records, compile,
}

-- A record is the business of a provider: it has its name, is inside its zone and not for ACME, and its
-- time to live is one that the provider takes.
pub record IsOf (spec : ProviderSpec) (d : DesiredRecord) : Type 0 where
  pub named : d.provider ≡ spec.name
  pub inside : is_within_zone d.set.name spec.zone ≡ true
  pub unreserved : is_reserved d.set.name ≡ false
  pub lives : ttl_allowed spec.kind d.set.ttl ≡ true

compile_named-IsOf :
    (parsers : Parsers) (spec : ProviderSpec) (name : Text) (r : DnsRecordConfig)
    (d : DesiredRecord)
    → compile_named parsers spec name r ≡ ok d
    → IsOf spec d
unfolding compile_named check_name check_record desired_of
compile_named-IsOf parsers spec name r d h =
    elim (Result-cases (normalize_values parsers r.record_type r.values)) [
      | inr (e, bad) ↦ absurd (ground arith)
      | inl (values, fine) ↦ record {
        named = ground arith;
        inside = ground arith;
        unreserved = ground arith;
        lives = ground arith;
      }
    ]

module _ (parsers : Parsers) (allowed_zones : List Text) where
  abbrev pub IsAllowed : ProviderSpec → Type 0
  IsAllowed spec = allowed_in allowed_zones spec.zone ≡ true

  compile_provider-IsAllowed :
      (before : List ProviderSpec) (p : DnsProviderConfig) (spec : ProviderSpec)
      → compile_provider parsers allowed_zones before p ≡ ok spec
      → IsAllowed spec
  unfolding compile_provider
  compile_provider-IsAllowed before p spec h = elim (Result-cases (normalize_hostname p.zone)) [
    | inr (e, bad) ↦ absurd (ground arith)
    | inl (zone, fine) ↦ elim (Result-cases (check_settings parsers p p.kind)) [
      | inr (e, bad) ↦ absurd (ground arith)
      | inl (u, set) ↦ ground arith
    ]
  ]

  compile_providers-IsAllowed :
      (before : List ProviderSpec) (ps : List DnsProviderConfig) (specs : List ProviderSpec)
      → All IsAllowed before
      → compile_providers parsers allowed_zones before ps ≡ ok specs
      → All IsAllowed specs
  unfolding compile_providers
  compile_providers-IsAllowed before [] specs a h = subst (All IsAllowed) (ground arith) a
  compile_providers-IsAllowed before (p ∷ ps) specs a h =
      let (spec, made, rest) =
        >>=-eq-ok (compile_provider parsers allowed_zones before p)
          (λ spec. compile_providers parsers allowed_zones (before ++ spec ∷ []) ps) h in
      compile_providers-IsAllowed (before ++ spec ∷ []) ps specs
        (All-append IsAllowed before (spec ∷ []) a
          (compile_provider-IsAllowed before p spec made, tt))
        rest

find_spec-All :
    (P : ProviderSpec → Type 0) (name : Text) (specs : List ProviderSpec) (spec : ProviderSpec)
    → All P specs
    → find_spec name specs ≡ some spec
    → P spec × (spec.name ≡ name)
unfolding find_spec
find_spec-All P name [] spec a h = absurd (ground arith)
find_spec-All P name (x ∷ xs) spec a h = elim (Bool-cases (x.name == name)) [
  | inl same ↦ let here : x ≡ spec = ground arith in (subst P here a.0, ground arith)
  | inr other ↦ find_spec-All P name xs spec a.1 (ground arith)
]

-- No two records have the same provider, name and type.
abbrev pub Apart : List DesiredRecord → Type 0
Apart [] = Unit
Apart (d ∷ ds) = (any (λ e. same_key e d) ds ≡ false) × Apart ds

any-last :
    (p : DesiredRecord → Bool) (ds : List DesiredRecord) (d : DesiredRecord)
    → any p ds ≡ false
    → p d ≡ false
    → any p (ds ++ d ∷ []) ≡ false
any-last p [] d h q = ground arith
any-last p (x ∷ xs) d h q = ground (arith, any-last p xs d)

Apart-last :
    (ds : List DesiredRecord) (d : DesiredRecord)
    → Apart ds
    → any (same_key d) ds ≡ false
    → Apart (ds ++ d ∷ [])
Apart-last [] d a h = (refl, tt)
Apart-last (x ∷ xs) d a h =
    (any-last (λ e. same_key e x) xs d a.0 (ground arith), Apart-last xs d a.1 (ground arith))

-- A record may be touched: the provider that it names is there, the provider's zone is an allowed one or
-- inside one, and the record is the provider's business.
pub record MayTouch (allowed_zones : List Text) (providers : List ProviderSpec) (d : DesiredRecord)
    : Type 0 where
  pub spec : ProviderSpec
  pub found : find_spec d.provider providers ≡ some spec
  pub allowed : allowed_in allowed_zones spec.zone ≡ true
  pub business : IsOf spec d

module _ (parsers : Parsers) (allowed_zones : List Text) (providers : List ProviderSpec) where
  compile_record-MayTouch :
      (before : List DesiredRecord) (r : DnsRecordConfig) (d : DesiredRecord)
      → All (IsAllowed parsers allowed_zones) providers
      → compile_record parsers providers before r ≡ ok d
      → MayTouch allowed_zones providers d × (any (same_key d) before ≡ false)
  unfolding compile_record
  compile_record-MayTouch before r d a h = elim (Option-cases (find_spec r.provider providers)) [
    | inl unknown ↦ absurd (ground arith)
    | inr (spec, found) ↦ elim (Result-cases (normalize_dns_name r.name)) [
      | inr (e, bad) ↦ absurd (ground arith)
      | inl (name, fine) ↦ elim (Result-cases (compile_named parsers spec name r)) [
        | inr (e, refused) ↦ absurd (ground arith)
        | inl (made, done) ↦
            let same : made ≡ d = ground arith in
            let business =
              subst (IsOf spec) same (compile_named-IsOf parsers spec name r made done) in
            let (allowed, named) =
              find_spec-All (IsAllowed parsers allowed_zones) r.provider providers spec a found in
            (
              record {
                spec = spec;
                found =
                    subst (λ n. find_spec n providers ≡ some spec) (sym (business.named ∙ named))
                      found;
                allowed = allowed;
                business = business;
              },
              ground arith,
            )
      ]
    ]
  ]

  compile_records-MayTouch :
      (before : List DesiredRecord) (rs : List DnsRecordConfig) (ds : List DesiredRecord)
      → All (IsAllowed parsers allowed_zones) providers
      → All (MayTouch allowed_zones providers) before
      → Apart before
      → compile_records parsers providers before rs ≡ ok ds
      → All (MayTouch allowed_zones providers) ds × Apart ds
  unfolding compile_records
  compile_records-MayTouch before [] ds a m apart h =
      subst (λ l. All (MayTouch allowed_zones providers) l × Apart l) (ground arith) (m, apart)
  compile_records-MayTouch before (r ∷ rs) ds a m apart h =
      let (d, made, rest) =
        >>=-eq-ok (compile_record parsers providers before r)
          (λ d. compile_records parsers providers (before ++ d ∷ []) rs) h in
      let (may, fresh) = compile_record-MayTouch before r d a made in
      compile_records-MayTouch (before ++ d ∷ []) rs ds a
        (All-append (MayTouch allowed_zones providers) before (d ∷ []) m (may, tt))
        (Apart-last before d apart fresh) rest

-- Of a configuration that compiles, each record belongs to a provider of it whose zone lies in an
-- allowed zone; its name lies in the provider's zone and is not reserved for ACME, and its time to
-- live is one that the provider takes; no two records have the same provider, name and type.
pub compile-MayTouch :
    (parsers : Parsers) (cfg : DnsConfig) (c : CompiledDns)
    → compile parsers cfg ≡ ok c
    → All (MayTouch c.allowed_zones c.providers) c.records × Apart c.records
unfolding compile
compile-MayTouch parsers cfg c h = elim (Result-cases (normalize_zones cfg.allowed_zones)) [
  | inr (e, bad) ↦ absurd (ground arith)
  | inl (zones, fine) ↦ elim (Result-cases (compile_providers parsers zones [] cfg.providers)) [
    | inr (e, bad) ↦ absurd (ground arith)
    | inl (providers, known) ↦
        elim (Result-cases (compile_records parsers providers [] cfg.records)) [
          | inr (e, bad) ↦ absurd (ground arith)
          | inl (records, made) ↦
              let same : record { allowed_zones = zones; providers = providers; records = records }
                  ≡ c =
                ground arith in
              subst (λ z. All (MayTouch z.allowed_zones z.providers) z.records × Apart z.records)
                same
                (compile_records-MayTouch parsers zones providers [] cfg.records records
                  (compile_providers-IsAllowed parsers zones [] cfg.providers providers tt known) tt
                  tt made)
        ]
  ]
]
