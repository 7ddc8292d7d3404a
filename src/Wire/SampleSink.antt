-- ===== src/Wire/SampleSink.antt =====
-- A sink for the runs: it takes so many frames, and then every send fails.
use kafka_proxy.Base.{
  ℕ, refl, true, false, List, [], ◌∷◌, ◌++◌, if◌then◌else◌, arith, ltb, length, inl, inr,
  Bool-cases,
}
use kafka_proxy.Wire.{Bytes}
use kafka_proxy.Wire.Sink.{Sink, SinkLaws}

abbrev pub bounded_sink : ℕ → Sink
bounded_sink n = record {
  State = List Bytes;
  send = λ f s. if ltb (length s) n then (true, s ++ (f ∷ [])) else (false, s);
  flush = λ s. (true, s);
  close = λ s. s;
  sent = λ s. s;
}

pub bounded_sink_laws : (n : ℕ) → SinkLaws (bounded_sink n)
bounded_sink_laws n = record {
  sent-send = λ f s h. elim (Bool-cases (ltb (length s) n)) [
    | inl room ↦ rw room refl
    | inr full ↦ ground (arith, h, full)
  ];
  sent-send_failed = λ f s. elim (Bool-cases (ltb (length s) n)) [
    | inl room ↦ inr (rw room refl)
    | inr full ↦ inl (rw full refl)
  ];
  sent-flush = λ s. refl;
  sent-close = λ s. refl;
}
