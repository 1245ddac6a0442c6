-- ===== src/Sts/Drain.antt =====
-- What draining the four incoming queues in the order of the queues array gives.
use mathlib.Core.List.{foldl, foldl-append}
use sisop_2012_2c.Shared.{
  ℕ, zero, suc, ◌+◌, ◌-◌, ◌≡◌, refl, sym, ap, ◌∙◌, ◌≢◌, List, [], ◌∷◌, ◌++◌, arith, length,
  append_assoc, append-nil, some, get_elem?,
}
use sisop_2012_2c.Shared.Int.{ℤ}
use sisop_2012_2c.Shared.Outcome.{ok}
use sisop_2012_2c.Commons.{Collections, list_add}
use sisop_2012_2c.Process.{
  ProcessImage, Channel, IsCounted, counted, enqueue, enqueue-counted, sem_after_trywait,
}
use sisop_2012_2c.System.{System, Settings}
pub use sisop_2012_2c.Sts.Queues.{
  Origin, new, resumed, end_of_quantum, end_of_io, name_of, entry, channel_of, queue_of, drained,
  QueuesCounted, drained-QueuesCounted, queue_of-drained,
}
use sisop_2012_2c.Sts.{drain_loop, drain, drain_case, drain_queues}

module _ {A S : Type 0} ⦃c : Collections⦄ (sink : S → A → S) where
  drain_loop-foldl :
      (q : List A) (sts : ℕ) (acc : S)
      → drain_loop sink (length q) q sts acc ≡ ok (counted [], sts - length q, foldl sink acc q)
  unfolding drain_loop
  drain_loop-foldl [] sts acc = ap (λ n. ok (counted [], n, acc)) (omega arith)
  drain_loop-foldl (x ∷ q) sts acc =
      rw (c.pop_law, drain_loop)
        (drain_loop-foldl q (sem_after_trywait sts) (sink acc x)
          ∙ ap (λ n. ok (counted [], n, foldl sink (sink acc x) q)) (one_less sts))
    where
      one_less : (n : ℕ) → sem_after_trywait n - length q ≡ n - suc (length q)
      one_less zero = omega arith
      one_less (suc n) = omega arith

  drain-foldl :
      (ch : Channel A) (sts : ℕ) (acc : S)
      → IsCounted ch
      → drain sink ch sts acc ≡ ok (counted [], sts - length ch.queue, foldl sink acc ch.queue)
  unfolding drain
  drain-foldl ch sts acc h = rw h (drain_loop-foldl ch.queue sts acc)

module _ {D S : Type 0} ⦃c : Collections⦄ (sink : S → ProcessImage D → S) where
  drain_case-drained :
      (o : Origin) (s : System D) (acc : S)
      → QueuesCounted s
      → drain_case sink (name_of o) s acc ≡ ok (drained o s, foldl sink acc (queue_of o s))
  unfolding drain_case
  drain_case-drained new s acc h =
      rw (drain-foldl sink s.lpn s.sts_in_empty acc (h new), drain_case)
  drain_case-drained resumed s acc h =
      rw (drain-foldl sink s.lpr s.sts_in_empty acc (h resumed), drain_case)
  drain_case-drained end_of_quantum s acc h =
      rw (drain-foldl sink s.lfq s.sts_in_empty acc (h end_of_quantum), drain_case)
  drain_case-drained end_of_io s acc h =
      rw (drain-foldl sink s.lfio s.sts_in_empty acc (h end_of_io), drain_case)

  drain_queues-step :
      (rounds i : ℕ) (s : System D) (acc : S) (o : Origin) (p : ℤ)
      → get_elem? s.settings.queues_array i ≡ some (entry o p)
      → QueuesCounted s
      → drain_queues sink (suc rounds) i s acc
        ≡ drain_queues sink rounds (i + 1) (drained o s) (foldl sink acc (queue_of o s))
  unfolding drain_queues
  drain_queues-step rounds i s acc o p e h = rw (e, drain_case_drained', drain_queues)
    where
      drain_case_drained' :
          drain_case sink (name_of o) s acc ≡ ok (drained o s, foldl sink acc (queue_of o s))
      drain_case_drained' = drain_case-drained o s acc h

drain_queues-end :
    {D S : Type 0} ⦃c : Collections⦄ (sink : S → ProcessImage D → S) (i : ℕ) (s : System D)
    (acc : S)
    → drain_queues sink 0 i s acc ≡ ok (s, acc)
unfolding drain_queues
drain_queues-end sink i s acc = refl

pub settings-drained :
    {D : Type 0} (o : Origin) (s : System D) → (drained o s).settings ≡ s.settings
settings-drained new s = refl
settings-drained resumed s = refl
settings-drained end_of_quantum s = refl
settings-drained end_of_io s = refl

-- The array names the four queues, each once.
pub record IsOrder {D : Type 0} (a b c d : Origin) (s : System D) : Type 0 where
  pub p : ℤ
  pub q : ℤ
  pub r : ℤ
  pub t : ℤ
  pub array : s.settings.queues_array ≡ entry a p ∷ entry b q ∷ entry c r ∷ entry d t ∷ []
  pub ba : b ≢ a
  pub ca : c ≢ a
  pub cb : c ≢ b
  pub da : d ≢ a
  pub db : d ≢ b
  pub dc : d ≢ c

-- The queues array names each queue once, whatever else is in a state with that array.
pub IsOrder-at :
    {D : Type 0} (a b c d : Origin) (s t : System D)
    → IsOrder a b c d s
    → s.settings.queues_array ≡ t.settings.queues_array
    → IsOrder a b c d t
IsOrder-at a b c d s t o e = record {
  p = o.p;
  q = o.q;
  r = o.r;
  t = o.t;
  array = sym e ∙ o.array;
  ba = o.ba;
  ca = o.ca;
  cb = o.cb;
  da = o.da;
  db = o.db;
  dc = o.dc;
}

module _ {D : Type 0} (a b c d : Origin) where
  -- The contents of the four queues, in the order of the array.
  abbrev pub arrivals : System D → List (ProcessImage D)
  arrivals s = queue_of a s ++ (queue_of b s ++ (queue_of c s ++ queue_of d s))

  abbrev pub all_drained : System D → System D
  all_drained s = drained d (drained c (drained b (drained a s)))

module _ {D : Type 0} (a b c d : Origin) (s : System D) (o : IsOrder a b c d s) where
  settings_kept :
      (s.settings ≡ (drained a s).settings)
      × (s.settings ≡ (drained b (drained a s)).settings)
      × (s.settings ≡ (drained c (drained b (drained a s))).settings)
  settings_kept = (
    sym (settings-drained a s),
    sym (settings-drained b (drained a s) ∙ settings-drained a s),
    sym (
        settings-drained c (drained b (drained a s))
        ∙ settings-drained b (drained a s)
        ∙ settings-drained a s),
  )

  pub queues_kept :
      (queue_of b (drained a s) ≡ queue_of b s)
      × (queue_of c (drained b (drained a s)) ≡ queue_of c s)
      × (queue_of d (drained c (drained b (drained a s))) ≡ queue_of d s)
  queues_kept = (
    queue_of-drained a b s o.ba,
    queue_of-drained b c (drained a s) o.cb ∙ queue_of-drained a c s o.ca,
    queue_of-drained c d (drained b (drained a s)) o.dc
        ∙ queue_of-drained b d (drained a s) o.db
        ∙ queue_of-drained a d s o.da,
  )

module _ {D S : Type 0} ⦃cl : Collections⦄ (sink : S → ProcessImage D → S) (a b c d : Origin) where
  pub drain_queues-all :
      (s : System D) (acc : S)
      → QueuesCounted s
      → IsOrder a b c d s
      → drain_queues sink 4 0 s acc
        ≡ ok (all_drained a b c d s, foldl sink acc (arrivals a b c d s))
  drain_queues-all s acc h o =
      let s1 = drained a s in
      let s2 = drained b s1 in
      let s3 = drained c s2 in
      let h1 = drained-QueuesCounted a s h in
      let h2 = drained-QueuesCounted b s1 h1 in
      let h3 = drained-QueuesCounted c s2 h2 in
      let kept = settings_kept a b c d s o in
      let same = queues_kept a b c d s o in
      let acc1 = foldl sink acc (queue_of a s) in
      let acc2 = foldl sink acc1 (queue_of b s1) in
      let acc3 = foldl sink acc2 (queue_of c s2) in
      drain_queues-step sink 3 0 s acc a o.p (at s.settings 0 refl) h
      ∙ drain_queues-step sink 2 1 s1 acc1 b o.q (at s1.settings 1 kept.0) h1
      ∙ drain_queues-step sink 1 2 s2 acc2 c o.r (at s2.settings 2 kept.1) h2
      ∙ drain_queues-step sink 0 3 s3 acc3 d o.t (at s3.settings 3 kept.2) h3
      ∙ drain_queues-end sink 4 (drained d s3) (foldl sink acc3 (queue_of d s3))
      ∙ rw (foldl-append, foldl-append, foldl-append, same.0, same.1, same.2)
    where
      at :
          (t : Settings D) (i : ℕ)
          → s.settings ≡ t
          → get_elem? t.queues_array i
            ≡ get_elem? (entry a o.p ∷ entry b o.q ∷ entry c o.r ∷ entry d o.t ∷ []) i
      at t i e = ap (λ u. get_elem? u.queues_array i) (sym e) ∙ ap (λ l. get_elem? l i) o.array

-- Where the two sinks put what they are given.
module _ {A : Type 0} ⦃c : Collections⦄ where
  pub foldl-list_add : (q l : List A) → foldl list_add l q ≡ l ++ q
  foldl-list_add [] l = sym (append-nil l)
  foldl-list_add (x ∷ q) l =
      rw c.add_law (foldl-list_add q (l ++ x ∷ []) ∙ append_assoc l (x ∷ []) q)

  pub foldl-enqueue : (q l : List A) → foldl enqueue (counted l) q ≡ counted (l ++ q)
  foldl-enqueue [] l = rw append-nil
  foldl-enqueue (x ∷ q) l =
      rw (enqueue-counted l x) (foldl-enqueue q (l ++ x ∷ []) ∙ rw append_assoc)

-- Afterwards the four queues are empty and counted, and nothing else but STS_in_empty is changed.
module _ {D : Type 0} (a b c d : Origin) (s : System D) where
  pub lpl-all_drained : (all_drained a b c d s).lpl ≡ s.lpl
  lpl-all_drained = lpl-drained d _ ∙ lpl-drained c _ ∙ lpl-drained b _ ∙ lpl-drained a s
    where
      lpl-drained : (o : Origin) (t : System D) → (drained o t).lpl ≡ t.lpl
      lpl-drained new t = refl
      lpl-drained resumed t = refl
      lpl-drained end_of_quantum t = refl
      lpl-drained end_of_io t = refl

  queue_of-drained_self : (o : Origin) (t : System D) → queue_of o (drained o t) ≡ []
  queue_of-drained_self new t = refl
  queue_of-drained_self resumed t = refl
  queue_of-drained_self end_of_quantum t = refl
  queue_of-drained_self end_of_io t = refl

  -- Each queue that the array names is empty.
  pub all_drained-empty :
      IsOrder a b c d s
      → (queue_of a (all_drained a b c d s) ≡ [])
        × (queue_of b (all_drained a b c d s) ≡ [])
        × (queue_of c (all_drained a b c d s) ≡ [])
        × (queue_of d (all_drained a b c d s) ≡ [])
  all_drained-empty o = (
    queue_of-drained d a _ (λ e. o.da (sym e))
        ∙ queue_of-drained c a _ (λ e. o.ca (sym e))
        ∙ queue_of-drained b a _ (λ e. o.ba (sym e))
        ∙ queue_of-drained_self a s,
    queue_of-drained d b _ (λ e. o.db (sym e))
        ∙ queue_of-drained c b _ (λ e. o.cb (sym e))
        ∙ queue_of-drained_self b (drained a s),
    queue_of-drained d c _ (λ e. o.dc (sym e)) ∙ queue_of-drained_self c (drained b (drained a s)),
    queue_of-drained_self d (drained c (drained b (drained a s))),
  )
