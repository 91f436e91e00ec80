-- ===== src/Dns/Challenges/Solving.antt =====
-- sievetube-edge/src/dns/txt.rs: publishing and removing one value, with the journal. `fuel` is that of
-- `wait_synced`.
use sievetube.Prelude.{
  text_eq, nat_eq, ℕ, zero, suc, ◌+◌, Text, ◌==◌, Option, none, some, List, [], ◌∷◌, ◌++◌, Result,
  ok, err, if◌then◌else◌, select, not, contains,
}
use sievetube.Dns.{RecordType, RecordSet}
use sievetube.Dns.Challenges.{
  max_attempts, TxtHandle, txt_handle_eq, challenge_prefix, TxtError, no_provider, unmanageable,
  journal_failed, provider_failed, too_many_changes, TxtWorld, TxtChallengeSolver, provider_for,
  zone_provider, delegated, with_value, without_value, has_value, retry_delay,
}
use sievetube.Dns.Challenges.Waiting.{wait_synced}

module _ {V W : Type 0} (world : TxtWorld V W) (solver : TxtChallengeSolver V) (fuel : ℕ) where
  unfoldable pub challenge_name : Text → W → W × Result TxtError Text
  challenge_name domain w =
      let name = challenge_prefix ++ domain in
      let looked = world.lookup_cname name w in
      (looked.0, delegated solver.allowed_zones name looked.1)

  unfoldable pub journal_update :
      (List TxtHandle → List TxtHandle) → W → W × Result TxtError (Unit {0})
  journal_update update w =
      let locked = world.lock_journal w in
      elim locked.1 [
        | err e ↦ (locked.0, err (journal_failed e))
        | ok u ↦ elim (world.read_journal locked.0) [
          | err e ↦ (locked.0, err (journal_failed e))
          | ok entries ↦
              let written = world.write_journal (update entries) locked.0 in
              elim written.1 [
                | err e ↦ (written.0, err (journal_failed e))
                | ok v ↦ (written.0, ok tt)
              ]
        ]
      ]

  unfoldable pub note_handle : TxtHandle → List TxtHandle → List TxtHandle
  note_handle handle entries = if contains entries handle then entries else entries ++ handle ∷ []

  unfoldable pub drop_handle : TxtHandle → List TxtHandle → List TxtHandle
  drop_handle handle entries = select (λ e. not (e == handle)) entries

  unfoldable pub observed_set : V → Text → W → W × Result TxtError (Option RecordSet)
  observed_set provider name w =
      let read = world.get provider name RecordType.txt w in
      (
        read.0,
        elim read.1 [
          | err e ↦ err (provider_failed e)
          | ok observed ↦ elim observed [
            | none ↦ ok none
            | some o ↦ elim o.unsupported [
              | some reason ↦ err (unmanageable reason)
              | none ↦ ok (some o.set)
            ]
          ]
        ],
      )

  -- One attempt: the change and the wait for it. `none` is that another attempt follows.
  unfoldable pub attempt_change :
      V
      → Text
      → ℕ
      → Option RecordSet
      → Option RecordSet
      → W
      → W × Option (Result TxtError (Unit {0}))
  attempt_change provider name attempt expected desired w =
      let replaced = world.replace provider name RecordType.txt expected desired w in
      elim replaced.1 [
        | ok ticket ↦
            let waited =
              wait_synced world fuel provider ticket solver.propagation_timeout replaced.0 in
            (waited.0, some waited.1)
        | err e ↦ elim (retry_delay e attempt) [
          | none ↦ (replaced.0, some (err (provider_failed e)))
          | some delay ↦ (world.sleep delay replaced.0, none)
        ]
      ]

  -- The attempts of `add`, from one attempt on; the first number is how many are left.
  unfoldable pub add_attempts : ℕ → ℕ → V → TxtHandle → W → W × Result TxtError (Unit {0})
  add_attempts zero attempt provider handle w = (w, err too_many_changes)
  add_attempts (suc left) attempt provider handle w =
      let read = observed_set provider handle.name w in
      elim read.1 [
        | err e ↦ (read.0, err e)
        | ok current ↦
            if has_value handle.value current
            then (read.0, ok tt)
            else let tried =
                attempt_change provider handle.name attempt current
                  (some (with_value handle.name solver.ttl handle.value current)) read.0 in
              let rest = add_attempts left (attempt + 1) provider handle tried.0 in
              elim tried.1 [ some result ↦ (tried.0, result) | none ↦ rest ]
      ]

  -- The part of `add` that follows the choice of the provider.
  unfoldable pub publish : V → TxtHandle → W → W × Result TxtError (Unit {0})
  publish provider handle w =
      let noted = journal_update (note_handle handle) w in
      elim noted.1 [
        | err e ↦ (noted.0, err e)
        | ok u ↦ add_attempts max_attempts 1 provider handle noted.0
      ]

  unfoldable pub add : Text → Text → W → W × Result TxtError TxtHandle
  add domain value w =
      let named = challenge_name domain w in
      elim named.1 [
        | err e ↦ (named.0, err e)
        | ok name ↦ elim (provider_for solver name) [
          | none ↦ (named.0, err (no_provider name))
          | some (zone, provider) ↦
              let handle : TxtHandle = record {
                zone = zone;
                name = name;
                value = value;
                domain = domain;
              } in
              let done = publish provider handle named.0 in
              (done.0, elim done.1 [ err e ↦ err e | ok u ↦ ok handle ])
        ]
      ]

  -- The attempts of `remove`.
  unfoldable pub remove_attempts : ℕ → ℕ → V → TxtHandle → W → W × Result TxtError (Unit {0})
  remove_attempts zero attempt provider handle w = (w, err too_many_changes)
  remove_attempts (suc left) attempt provider handle w =
      let read = observed_set provider handle.name w in
      elim read.1 [
        | err e ↦ (read.0, err e)
        | ok observed ↦ elim observed [
          | none ↦ (read.0, ok tt)
          | some current ↦
              if not (has_value handle.value (some current))
              then (read.0, ok tt)
              else let tried =
                  attempt_change provider handle.name attempt (some current)
                    (without_value handle.value current) read.0 in
                let rest = remove_attempts left (attempt + 1) provider handle tried.0 in
                elim tried.1 [ some result ↦ (tried.0, result) | none ↦ rest ]
        ]
      ]

  unfoldable pub remove : TxtHandle → W → W × Result TxtError (Unit {0})
  remove handle w = elim (zone_provider solver handle.zone) [
    | none ↦ (w, err (no_provider handle.zone))
    | some (zone, provider) ↦
        let removed = remove_attempts max_attempts 1 provider handle w in
        elim removed.1 [ err e ↦ removed | ok u ↦ journal_update (drop_handle handle) removed.0 ]
  ]

  -- `journal_entries`: no entries if the journal cannot be read.
  unfoldable pub journal_entries : W → List TxtHandle
  journal_entries w = elim (world.read_journal w) [ err e ↦ [] | ok entries ↦ entries ]

  -- `cleanup_entry` for each, whose errors are only logged.
  unfoldable pub cleanup_entries : List TxtHandle → W → W
  cleanup_entries [] w = w
  cleanup_entries (h ∷ hs) w = cleanup_entries hs (remove h w).0

  unfoldable pub cleanup_journal : W → W
  cleanup_journal w = cleanup_entries (journal_entries w) w
