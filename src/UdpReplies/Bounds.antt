-- ===== src/UdpReplies/Bounds.antt =====
-- The table stays bounded, and a reply is claimed once, by whoever may claim it.
use sievetube.Prelude.{
  nat_eq, ℕ, ◌≤◌, ◌≡◌, refl, leb, Bool, true, false, none, some, length, arith, Bool-cases, inl,
  inr,
}
use sievetube.Prelude.Maps.{
  get, insert, Distinct, length-retain, length-erase-le, retain-Distinct, erase-Distinct,
  insert-Distinct, get-erase,
}
use sievetube.UdpReplies.{
  UdpReplyEntry, UdpReplyTable, new_table, is_fresh, make_room, insert_reply, unexpired, take_reply,
  take_if, remove_reply, purge_expired,
}

module _ {D : Type 0} where
  -- The calls of the table, one at a time.
  pub data Step : UdpReplyTable D → UdpReplyTable D → Type 0 where
    inserted :
        (now request_id : ℕ) (e : UdpReplyEntry D) (t : UdpReplyTable D)
        → Step t (insert_reply now request_id e t).0
    taken : (now request_id : ℕ) (t : UdpReplyTable D) → Step t (take_reply now request_id t).0
    taken_if :
        (now request_id : ℕ) (accept : UdpReplyEntry D → Bool) (t : UdpReplyTable D)
        → Step t (take_if now request_id accept t).0
    removed : (request_id : ℕ) (t : UdpReplyTable D) → Step t (remove_reply request_id t)
    purged : (now : ℕ) (t : UdpReplyTable D) → Step t (purge_expired now t).0

  pub data Run : UdpReplyTable D → UdpReplyTable D → Type 0 where
    start : (t : UdpReplyTable D) → Run t t
    then_step : {t u v : UdpReplyTable D} → Run t u → Step u v → Run t v

  pub record IsBounded (max_entries : ℕ) (t : UdpReplyTable D) : Type 0 where
    pub limit : t.max_entries ≡ max_entries
    pub within : length t.entries ≤ max_entries
    pub distinct : Distinct t.entries

  make_room-IsBounded :
      (n now : ℕ) (t : UdpReplyTable D) → IsBounded n t → IsBounded n (make_room now t)
  unfolding make_room
  make_room-IsBounded n now t b = ground (
    arith,
    length-retain (is_fresh now t.ttl) t.entries,
    retain-Distinct (is_fresh now t.ttl) t.entries b.distinct,
  )

  put-IsBounded :
      (n request_id : ℕ) (e : UdpReplyEntry D) (t : UdpReplyTable D)
      → IsBounded n t
      → leb t.max_entries (length t.entries) ≡ false
      → IsBounded n (record t { entries = insert request_id e t.entries })
  unfolding insert
  put-IsBounded n request_id e t b free = record {
    limit = b.limit;
    within = ground (arith, length-erase-le request_id t.entries, b.within, b.limit);
    distinct = unfold insert in insert-Distinct request_id e t.entries b.distinct;
  }

  Step-IsBounded : {n : ℕ} {t u : UdpReplyTable D} → Step t u → IsBounded n t → IsBounded n u
  unfolding insert_reply take_reply take_if remove_reply purge_expired
  Step-IsBounded {n} (inserted now request_id e t) b =
      let room = make_room now t in
      let roomy = make_room-IsBounded n now t b in
      elim (Bool-cases (leb t.max_entries (length room.entries))) [
        | inl full ↦ rw full roomy
        | inr free ↦
            rw free (put-IsBounded n request_id e room roomy (ground (arith, roomy.limit, b.limit)))
      ]
  Step-IsBounded (taken now request_id t) b = record {
    limit = b.limit;
    within = omega (arith, length-erase-le request_id t.entries, b.within);
    distinct = erase-Distinct request_id t.entries b.distinct;
  }
  Step-IsBounded (taken_if now request_id accept t) b =
      ground (
        arith,
        length-erase-le request_id t.entries,
        erase-Distinct request_id t.entries b.distinct,
      )
  Step-IsBounded (removed request_id t) b =
      ground (
        arith,
        length-erase-le request_id t.entries,
        erase-Distinct request_id t.entries b.distinct,
      )
  Step-IsBounded (purged now t) b = ground (
    arith,
    length-retain (is_fresh now t.ttl) t.entries,
    retain-Distinct (is_fresh now t.ttl) t.entries b.distinct,
  )

  Run-keeps : {n : ℕ} {t u : UdpReplyTable D} → Run t u → IsBounded n t → IsBounded n u
  Run-keeps (start t) b = b
  Run-keeps (then_step run step) b = Step-IsBounded step (Run-keeps run b)

  new_table-IsBounded : (n ttl : ℕ) → IsBounded n (new_table {D = D} n ttl)
  unfolding new_table
  new_table-IsBounded n ttl = record { limit = refl; within = omega arith; distinct = tt }

  -- Whatever is called in whatever order, a table that starts empty never holds more entries than
  -- its limit, and never two under one id.
  pub Run-IsBounded : (n ttl : ℕ) (t : UdpReplyTable D) → Run (new_table n ttl) t → IsBounded n t
  Run-IsBounded n ttl t run = Run-keeps run (new_table-IsBounded n ttl)

  -- A reply is claimed only from an entry that is there, that the test accepts and that is not too old,
  -- and then the entry is gone.
  pub take_if-some :
      (t u : UdpReplyTable D) (now request_id : ℕ) (accept : UdpReplyEntry D → Bool)
      (e : UdpReplyEntry D)
      → take_if now request_id accept t ≡ (u, some e)
      → (get request_id t.entries ≡ some e)
        × (accept e ≡ true)
        × (is_fresh now t.ttl e ≡ true)
        × (get request_id u.entries ≡ none)
  unfolding take_if unexpired
  take_if-some t u now request_id accept e h =
      ground (arith, get-erase request_id request_id t.entries)
