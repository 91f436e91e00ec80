-- ===== src/Dns/Reconcile/Converge.antt =====
-- A change that a run made is found in place by the next run.
use sievetube.Prelude.{text_eq, nat_eq, ℕ, ◌≡◌, Text, Option}
use sievetube.Dns.{RecordSet, Observed}
use sievetube.Dns.Plan.{DesiredRecord, ManagedRecord, ProviderState, Action, key, decide}
use sievetube.Dns.Reconcile.{World, WriterMode}
use sievetube.Dns.Reconcile.Managed.{IsManaged}

module _ {V W : Type 0} (world : World V W) (mode : WriterMode) (provider : V)
    (provider_name : Text) (generation : ℕ) where
  -- What a run that made the change leaves.
  pub record Applied (d : DesiredRecord) (settle_secs : ℕ) (e t : Option RecordSet)
      (after : ProviderState) : Type 0 where
    pub seen : Option Observed
    pub stored : Option ManagedRecord
    pub at : ℕ
    pub decided : decide d seen stored at settle_secs ≡ Action.apply e t
    pub managed : IsManaged (key d) after
