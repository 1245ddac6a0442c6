-- ===== src/Config/Accounting.antt =====
-- A reading of the configuration ends, and leaves queues and semaphores in agreement and a queues
-- array that names each queue once, in the order of the priorities that were read.
use mathlib.Core.Path.{subst}
use sisop_2012_2c.Shared.{
  ◌≡◌, refl, ap, ◌∙◌, inl, inr, Bool-cases, List, [], ◌∷◌, CString, codes, str_eq, map,
}
use sisop_2012_2c.Shared.Outcome.{ok}
use sisop_2012_2c.Commons.{Collections}
use sisop_2012_2c.Doubles.{Doubles}
use sisop_2012_2c.Process.{ProcessImage, Channel, IsCounted, counted}
use sisop_2012_2c.System.{System, Settings, QueueEntry}
use sisop_2012_2c.System.Consistent.{IsConsistent}
use sisop_2012_2c.Sts.{order_insert_prio_list, order_insert_spn_list, priority_gt, tspn_gt}
use sisop_2012_2c.Sts.Pass.{priority_gt-IsStrict, tspn_gt-IsStrict}
use sisop_2012_2c.Sts.Order.Ready.{order_insert-nil}
use sisop_2012_2c.Sts.Drain.{Origin, name_of, IsOrder}
use sisop_2012_2c.Config.{
  Config, read_priorities, read_fixed, reorder_ready, reorder_queues_array_priority,
  configuration_reader,
}
use sisop_2012_2c.Config.Reading.{reorder_queues_array_priority-sorts}
use sisop_2012_2c.Config.Order.{Named, entry_of, Distinct, stable_sort-Distinct, four_of_length}

module _ {D : Type 0} where
  -- The queues array names each queue once, and queues and semaphores agree.
  pub record IsSound (s : System D) : Type 0 where
    pub a : Origin
    pub b : Origin
    pub c : Origin
    pub d : Origin
    pub order : IsOrder a b c d s
    pub consistent : IsConsistent s.settings.queues_array s

module _ {D : Type 0} ⦃c : Collections⦄ ⦃dbl : Doubles D⦄ where
  -- LPL is left, or emptied.
  reorder_ready-ends :
      (alg : CString) (s : System D)
      → IsCounted s.lpl
      → (l : Channel (ProcessImage D)) × IsCounted l
        × (reorder_ready alg s ≡ ok (record s { lpl = l }))
  unfolding reorder_ready order_insert_prio_list order_insert_spn_list
  reorder_ready-ends alg s h = elim (Bool-cases (str_eq alg (codes "PRI"))) [
    | inl pri ↦ (
      counted [],
      refl,
      rw (pri, order_insert-nil priority_gt priority_gt-IsStrict s.lpl h, reorder_ready) refl,
    )
    | inr no_pri ↦ elim (Bool-cases (str_eq alg (codes "SPN"))) [
      | inl spn ↦ (
        counted [],
        refl,
        rw (no_pri, spn, order_insert-nil tspn_gt tspn_gt-IsStrict s.lpl h, reorder_ready) refl,
      )
      | inr no_spn ↦ (s.lpl, h, rw (no_pri, no_spn, reorder_ready) refl)
    ]
  ]

  read_fixed-queues_array :
      (config : Config D) (t : Settings D) → (read_fixed config t).queues_array ≡ t.queues_array
  read_fixed-queues_array config t = elim (Bool-cases t.flag_ready) [
    | inl ready ↦ rw ready refl
    | inr first ↦ rw first refl
  ]

  -- What a reading makes of the settings.
  abbrev read_settings : Config D → List QueueEntry → Settings D → Settings D
  read_settings config array t = read_fixed config (record t {
    alg = config.alg;
    queues_array = array;
    sent_time = config.int_value (codes "SENT_TIME");
  })

module _ {D : Type 0} ⦃c : Collections⦄ ⦃dbl : Doubles D⦄ (config : Config D) (s : System D) where
  read_entry : Origin → Named
  read_entry q = (q, config.int_value (name_of q))

  -- The array that is read names each queue once.
  sorted-named :
      (a b c d : Origin)
      → IsOrder a b c d s
      → (w x y z : Named) × (reorder_queues_array_priority
            (read_priorities config s.settings.queues_array)
          ≡ ok (map entry_of (w ∷ x ∷ y ∷ z ∷ [])))
        × Distinct (w ∷ x ∷ y ∷ z ∷ [])
  unfolding read_entry
  sorted-named a b c d o =
      let named : List Named = read_entry a ∷ read_entry b ∷ read_entry c ∷ read_entry d ∷ [] in
      let distinct : Distinct named =
        ((o.ba, (o.ca, (o.da, _))), ((o.cb, (o.db, _)), ((o.dc, _), (_, _)))) in
      let (l, e, n, still, keeps) = stable_sort-Distinct named distinct in
      let (w, x, y, z, shape) = four_of_length l n in
      (
        w,
        x,
        y,
        z,
        rw o.array (
            (reorder_queues_array_priority-sorts (entry_of (read_entry a)) (entry_of (read_entry b))
              (entry_of (read_entry c)) (entry_of (read_entry d))).0
            ∙ ap ok (e ∙ ap (map entry_of) shape)),
        subst Distinct shape still,
      )

  -- Where queues and semaphores agree and the queues array names each queue once, a reading of the
  -- configuration gives a state, whatever pp.config says, and they do so there.
  pub configuration_reader-IsSound :
      IsSound s → (s' : System D) × (configuration_reader config s ≡ ok s') × IsSound s'
  unfolding configuration_reader
  configuration_reader-IsSound h =
      let (settings, lpn, lpr, lfq, lfio, lpl, lpb, lfifo, sts) = h.consistent in
      let (l, counts, ends) = reorder_ready-ends config.alg s lpl in
      let (w, x, y, z, read, dist) = sorted-named h.a h.b h.c h.d h.order in
      let array = map entry_of (w ∷ x ∷ y ∷ z ∷ []) in
      let t = read_settings config array s.settings in
      let s' = record s { lpl = l; settings = t } in
      let named = read_fixed-queues_array config (record (s.settings) {
        alg = config.alg;
        queues_array = array;
        sent_time = config.int_value (codes "SENT_TIME");
      }) in
      (
        s',
        rw (ends, read, configuration_reader) refl,
        record {
          a = w.0;
          b = x.0;
          c = y.0;
          d = z.0;
          order = record {
            p = w.1;
            q = x.1;
            r = y.1;
            t = z.1;
            array = named;
            ba = dist.0.0;
            ca = dist.0.1.0;
            cb = dist.1.0.0;
            da = dist.0.1.1.0;
            db = dist.1.0.1.0;
            dc = dist.1.1.0.0;
          };
          consistent = (refl, lpn, lpr, lfq, lfio, counts, lpb, lfifo, sts);
        },
      )
