-- ===== src/Sniff/Output/Counters.antt =====
-- The counters and the sampling of the output file, internal/sniff/sniff.go.
use mathlib.Core.List.{append_assoc, append-nil, map-append}
use mocking_box.Prelude.{
  suc, ◌+◌, sym, ◌≡◌, refl, ap, ◌∙◌, Bool, true, false, not, List, [], ◌∷◌, ◌++◌, map, keep,
  keep-append, all, length, length-append, arith, Bool-cases, inl, inr, and-true,
}
use mocking_box.Diff.Value.{Numerics}
use mocking_box.Sniff.Pairing.{Exchange}
use mocking_box.Sniff.Output.{
  Floats, Output, Arrival, is_read, sampled_out, record_name, sink, sink_all,
}

abbrev pub is_write : {N : Numerics} → Exchange N → Bool
is_write ex = not (is_read (ex.method))

keep_one : {N : Numerics} (ex : Exchange N) → is_write ex ≡ false → keep is_write (ex ∷ []) ≡ []
unfolding keep
keep_one ex h = rw h

module _ {N : Numerics} {F : Floats} where
  -- The exchanges that the file holds.
  abbrev pub exchanges : Output N F → List (Exchange N)
  exchanges o = map (λ w. w.exchange) (o.file)

  sink-tally :
      (o : Output N F) (a : Arrival N F)
      → ((sink o a).seq + (sink o a).skipped ≡ o.seq + o.skipped + 1)
        × (length ((sink o a).file) + o.count ≡ length (o.file) + (sink o a).count)
  unfolding sink
  sink-tally o a = elim (Bool-cases (sampled_out o (a.exchange.method) (a.draw))) [
    | inl h ↦ rw h (omega arith, omega arith)
    | inr h ↦ rw h (elim (Bool-cases (a.writes)) [
      | inl k ↦ rw k (
        omega arith,
        omega (
          arith,
          length-append (o.file) (
              record { name = record_name (suc (o.seq)) (a.exchange); exchange = a.exchange } ∷ []),
        ),
      )
      | inr k ↦ rw k (omega arith, omega arith)
    ])
  ]

  -- The record counter and the number of skipped exchanges together count every exchange that
  -- arrived, and the count that the heartbeats report grows by the number of records that the file
  -- gained.
  pub sink_all-tally :
      (o : Output N F) (arrivals : List (Arrival N F))
      → ((sink_all o arrivals).seq + (sink_all o arrivals).skipped
          ≡ o.seq + o.skipped + length arrivals)
        × (length ((sink_all o arrivals).file) + o.count
            ≡ length (o.file) + (sink_all o arrivals).count)
  unfolding sink_all
  sink_all-tally o [] = (omega arith, refl)
  sink_all-tally o (a ∷ rest) =
      let (s, l) = sink-tally o a in
      let (t, m) = sink_all-tally (sink o a) rest in (omega (arith, s, t), omega (arith, l, m))

  -- With SampleAllWrites only reads are sampled out.
  sampled_out-read :
      (o : Output N F) (ex : Exchange N) (draw : F.Float)
      → o.sample_all_writes ≡ true
      → sampled_out o (ex.method) draw ≡ true
      → is_write ex ≡ false
  unfolding sampled_out
  sampled_out-read o ex draw s h = elim (Bool-cases (is_read (ex.method))) [
    | inl r ↦ rw r
    | inr r ↦ ground arith
  ]

  sink-keep :
      (o : Output N F) (a : Arrival N F)
      → o.sample_all_writes ≡ true
      → a.writes ≡ true
      → (keep is_write (exchanges (sink o a))
          ≡ keep is_write (exchanges o) ++ keep is_write (a.exchange ∷ []))
        × ((sink o a).sample_all_writes ≡ true)
  unfolding sink
  sink-keep o a s k = elim (Bool-cases (sampled_out o (a.exchange.method) (a.draw))) [
    | inl h ↦ rw h (
      rw (keep_one (a.exchange) (sampled_out-read o (a.exchange) (a.draw) s h))
          (sym (append-nil (keep is_write (exchanges o)))),
      s,
    )
    | inr h ↦
        rw (h, k)
          (
            rw
                (map-append (λ w. w.exchange) (o.file)
                  (record { name = record_name (suc (o.seq)) (a.exchange); exchange = a.exchange }
                    ∷ []))
                (keep-append is_write (exchanges o) (a.exchange ∷ [])),
            s,
          )
  ]

  -- With SampleAllWrites, and as long as the file can be written, sampling drops no exchange whose
  -- method writes, whatever the rate and the draws are: the file gains all of them in their order.
  pub sink_all-writes :
      (o : Output N F) (arrivals : List (Arrival N F))
      → o.sample_all_writes ≡ true
      → all (λ a. a.writes) arrivals ≡ true
      → keep is_write (exchanges (sink_all o arrivals))
        ≡ keep is_write (exchanges o) ++ keep is_write (map (λ a. a.exchange) arrivals)
  unfolding sink_all keep
  sink_all-writes o [] s h = sym (append-nil (keep is_write (exchanges o)))
  sink_all-writes o (a ∷ rest) s h =
      let (k, ks) = and-true (a.writes) (all (λ b. b.writes) rest) h in
      let (e, s') = sink-keep o a s k in
      sink_all-writes (sink o a) rest s' ks
      ∙ rw e (
          append_assoc (keep is_write (exchanges o)) (keep is_write (a.exchange ∷ []))
            (keep is_write (map (λ b. b.exchange) rest))
          ∙ ap (◌++◌ (keep is_write (exchanges o)))
              (sym (keep-append is_write (a.exchange ∷ []) (map (λ b. b.exchange) rest))))
