-- ===== src/Store/Server/Steps.antt =====
-- The cases of appHandler in contrib/storageimpl/storageimpl.go against the view.
use airline_booking.Prelude.{
  ℕ, ◌+◌, ◌≡◌, refl, sym, ap, subst, ◌∙◌, Bool, true, Option, none, some, List, [], ◌∷◌, ◌++◌, map,
  arith, nat_eq, length-append, All, All-append, Text, text_eq,
}
use airline_booking.Prelude.Assoc.{
  Assoc, lookup, insert, lookup-insert_here, lookup-insert_other, keys,
}
use airline_booking.Store.HashList.Refinement.{list-values}
use airline_booking.Store.Buffer.{Buf}
use airline_booking.Store.Buffer.Fifo.{Holds, new-Holds, insert_last-Holds}
use airline_booking.Store.Server.{
  Request, Value, text_value, list_value, Reply, text_reply, Effect, call_cache, State, Outcome,
  reply_to, is_write, fetch, fetch_list, perform, defer, buffer_of, count_of, clients_of,
}
use airline_booking.Store.Server.Content.{
  Content, missing, string, sequence, Shows, Performed, perform-Performs,
}
use airline_booking.Store.Server.View.{
  View, set, read_content, read_sequence, Viewed, answers_only, view_write, Queued, ban_of, IsWait,
  IsServer, set-elim,
}
use airline_booking.Store.Server.View.Parts.{answers, holders-none, holders_nonempty, not_empty}

-- A step of the server that stands for the step `w` of the view.
pub record Stepped (r : Request) (s : State) (a : View) (w : Viewed) (s' : State) (es : List Effect)
    : Type 0 where
  pub server : IsServer s' w.0
  pub answered : answers es ≡ w.1

abbrev pub Steps : Request → State → View → Viewed → Outcome → Type 0
Steps r s a w o = (s' : State) × (es : List Effect) × (o ≡ some (s', es)) × Stepped r s a w s' es

answers-calls :
    (k : Text) (clients : Assoc Text ℕ) → answers (map (λ c. call_cache k c.0) clients) ≡ []
unfolding answers
answers-calls k [] = refl
answers-calls k (c ∷ clients) = answers-calls k clients

ban_of_snoc :
    (r : Request) (rs : List Request) → some (count_of (ban_of rs) + 1) ≡ ban_of (rs ++ r ∷ [])
ban_of_snoc r [] = refl
ban_of_snoc r (q ∷ rs) = ap some (omega (arith, length-append rs (r ∷ [])))

-- The buffer that a key has, or the new one that it gets.
queue_lem : (o : Option (Buf Request)) (rs : List Request) → Queued o rs → Holds (buffer_of o) rs
queue_lem none [] q = new-Holds Request
queue_lem none (r ∷ rs) q = elim q [ ]
queue_lem (some b) rs q = q

module _ (r : Request) (s : State) (a : View) (i : IsServer s a) where
  -- A step that only answers.
  pub reply_to-Steps : (x : Reply) → Steps r s a (answers_only r x a) (reply_to r x s)
  unfolding answers
  reply_to-Steps x = (s, _, refl, record { server = i; answered = refl })

  pub fetch-read_content :
      (held : Option Value) (c : Content) → Shows held c → fetch held ≡ read_content c
  unfolding fetch read_content
  fetch-read_content none missing h = refl
  fetch-read_content (some (text_value t)) (string u) h = ap text_reply h
  fetch-read_content (some (list_value hl)) (sequence vs) h = refl
  fetch-read_content none (string u) h = elim h [ ]
  fetch-read_content none (sequence u) h = elim h [ ]
  fetch-read_content (some (text_value t)) missing h = elim h [ ]
  fetch-read_content (some (text_value t)) (sequence vs) h = elim h [ ]
  fetch-read_content (some (list_value hl)) missing h = elim h [ ]
  fetch-read_content (some (list_value hl)) (string vs) h = elim h [ ]

  pub fetch_list-read_sequence :
      (held : Option Value) (c : Content) → Shows held c → fetch_list held ≡ some (read_sequence c)
  unfolding fetch_list read_sequence
  fetch_list-read_sequence none missing h = refl
  fetch_list-read_sequence (some (text_value t)) (string u) h = refl
  fetch_list-read_sequence (some (list_value hl)) (sequence vs) h = rw (list-values hl vs h) refl
  fetch_list-read_sequence none (string u) h = elim h [ ]
  fetch_list-read_sequence none (sequence u) h = elim h [ ]
  fetch_list-read_sequence (some (text_value t)) missing h = elim h [ ]
  fetch_list-read_sequence (some (text_value t)) (sequence vs) h = elim h [ ]
  fetch_list-read_sequence (some (list_value hl)) missing h = elim h [ ]
  fetch_list-read_sequence (some (list_value hl)) (string vs) h = elim h [ ]

  -- What the keys show after a write has been performed.
  performed-Shows :
      {w : Content × Bool} {s' : State} {es : List Effect} (k : Text)
      → Performed r s w s' es
      → Shows (lookup k s'.cache) (set r.key w.0 a.contents k)
  performed-Shows {w} {s'} k p =
      set-elim (λ j c. Shows (lookup j s'.cache) c) r.key k w.0 a.contents p.shown
        (λ n. subst (λ o. Shows o (a.contents k)) (sym (p.others k n)) (i.shows k))

  -- A write to a key without leases.
  pub write-Steps :
      is_write r.typ ≡ true
      → lookup r.key s.leases ≡ none
      → Steps r s a (view_write r a) (perform r s)
  unfolding answers view_write
  write-Steps w free =
      let (s', es, ran, p) = perform-Performs r s (a.contents r.key) w (i.shows r.key) in
      rw (view_write, holders-none s a i r.key free)
        (
          s',
          es,
          ran,
          record {
            server = record {
              shows = λ k. performed-Shows k p;
              queues =
                  λ k. subst (λ m. Queued (lookup k m) (a.pending k)) (sym p.kept.1) (i.queues k);
              bans = λ k. ap (lookup k) p.kept.2 ∙ i.bans k;
              holders = λ k. ap (λ l. keys (clients_of (lookup k l))) p.kept.0 ∙ i.holders k;
              leased = i.leased;
              held = λ k n. i.held k (sym (ap (lookup k) p.kept.0) ∙ n);
              writes = i.writes;
            };
            answered = rw p.answered refl;
          },
        )

  -- The maps after a write has been put off.
  deferred_IsServer :
      (clients : Assoc Text ℕ) (b : Buf Request)
      → is_write r.typ ≡ true
      → lookup r.key s.leases ≡ some clients
      → Holds b (a.pending r.key ++ r ∷ [])
      → IsServer
          (record s {
            bans = insert r.key (count_of (lookup r.key s.bans) + 1) s.bans;
            deferred = insert r.key b s.deferred;
          })
          (record a { pending = set r.key (a.pending r.key ++ r ∷ []) a.pending })
  deferred_IsServer clients b w e holds = record {
    shows = i.shows;
    queues = λ k.
        set-elim (λ j rs. Queued (lookup j (insert r.key b s.deferred)) rs) r.key k
          (a.pending r.key ++ r ∷ []) a.pending
          (subst (λ o. Queued o (a.pending r.key ++ r ∷ []))
            (sym (lookup-insert_here r.key b s.deferred)) holds)
          (λ n.
            subst (λ o. Queued o (a.pending k)) (sym (lookup-insert_other r.key k b s.deferred n))
              (i.queues k));
    bans = λ k.
        set-elim
          (λ j rs. lookup j (insert r.key (count_of (lookup r.key s.bans) + 1) s.bans) ≡ ban_of rs)
          r.key k (a.pending r.key ++ r ∷ []) a.pending
          (lookup-insert_here r.key (count_of (lookup r.key s.bans) + 1) s.bans
            ∙ ap (λ o. some (count_of o + 1)) (i.bans r.key)
            ∙ ban_of_snoc r (a.pending r.key))
          (λ n.
            lookup-insert_other r.key k (count_of (lookup r.key s.bans) + 1) s.bans n ∙ i.bans k);
    holders = i.holders;
    leased = λ k.
        set-elim (λ j rs. a.holders j ≡ [] → rs ≡ []) r.key k (a.pending r.key ++ r ∷ []) a.pending
          (λ n. absurd (not_empty (a.holders r.key) (holders_nonempty s a i r.key clients e) n))
          (λ n. i.leased k);
    held = i.held;
    writes = λ k.
        set-elim (λ j rs. All (IsWait j) rs) r.key k (a.pending r.key ++ r ∷ []) a.pending
          (All-append (IsWait r.key) (a.pending r.key) (r ∷ []) (i.writes r.key) ((w, refl), tt))
          (λ n. i.writes k);
  }

  -- A write to a leased key.
  pub defer-Steps :
      (clients : Assoc Text ℕ)
      → is_write r.typ ≡ true
      → lookup r.key s.leases ≡ some clients
      → Steps r s a (view_write r a) (defer r clients s)
  unfolding view_write defer
  defer-Steps clients w e =
      let queue = buffer_of (lookup r.key s.deferred) in
      let (b, ran, holds) =
        insert_last-Holds r queue (a.pending r.key) (queue_lem _ _ (i.queues r.key)) in
      let s' : State = record s {
        bans = insert r.key (count_of (lookup r.key s.bans) + 1) s.bans;
        deferred = insert r.key b s.deferred;
      } in
      let es = map (λ c. call_cache r.key c.0) clients in
      let ran' : defer r clients s ≡ some (s', es) = rw ran refl in
      rw (view_write, holders_nonempty s a i r.key clients e)
        (
          s',
          es,
          ran',
          record {
            server = deferred_IsServer clients b w e holds;
            answered = answers-calls r.key clients;
          },
        )
