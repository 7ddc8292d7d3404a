-- ===== src/Main/Escapes.antt =====
-- src/main.rs: a line of the log with escapes and the same line without.
use mathlib.Core.List.{append_assoc}
use kafka_proxy.Base.{
  ◌≡◌, refl, ap, ◌∙◌, sym, Bool, true, false, not, [], ◌∷◌, ◌++◌, ◌==◌, if◌then◌else◌, unwrap_or,
  Option-cases, inl, inr,
}
use kafka_proxy.Text.{Text, codes}
use kafka_proxy.Text.Plain.{Without, decimal-Without, All-append}
use kafka_proxy.Main.LogFormat.{
  Level, trace, debug, info, warn, error, LogEvent, location, escape, level_part, location_part,
  format_event,
}

-- What a terminal shows: an escape sequence is from ESC to the letter `m`. `inside` one, nothing is.
unfoldable pub shown : Bool → Text → Text
shown inside [] = []
shown true (c ∷ s) = shown (not (c == b'm')) s
shown false (c ∷ s) = let rest = shown (c == 27) s in if c == 27 then rest else c ∷ rest

shown-append : (s t : Text) → Without 27 s → shown false (s ++ t) ≡ s ++ shown false t
unfolding shown
shown-append [] t plain = refl
shown-append (c ∷ s) t plain = rw plain.0 (ap (λ r. c ∷ r) (shown-append s t plain.1))

-- The parts of an event that are not fields have no escapes of their own; the fields differ by their
-- escapes only.
pub record IsPlainEvent (e : LogEvent) : Type 0 where
  pub time : Without 27 e.time
  pub target : Without 27 e.target
  pub file : Without 27 (unwrap_or e.file e.target)
  pub fields :
      (rest : Text) → shown false (e.fields true ++ rest) ≡ e.fields false ++ shown false rest

location-Without : (e : LogEvent) → IsPlainEvent e → Without 27 (location e)
unfolding location
location-Without e plain = elim (Option-cases e.line) [
  | inl q ↦ rw q (All-append _ e.target _ plain.target (refl, plain.file))
  | inr (line, q) ↦ rw q (
      All-append _ e.target _ plain.target (
        refl,
        All-append _ (unwrap_or e.file e.target) _ plain.file (refl, decimal-Without 27 line refl),
      ))
]

-- From the level on.
abbrev after_level : Bool → LogEvent → Text
after_level ansi e = location_part ansi e ++ (e.fields ansi ++ codes "\n")

shown-after_level :
    (e : LogEvent) → IsPlainEvent e → shown false (after_level true e) ≡ after_level false e
unfolding shown
shown-after_level e plain =
    let tail : Text = b'>' ∷ (escape (codes "0") ++ codes " ") in
    let shown_tail : Text = codes "> " in
    let fields : Text = e.fields false ++ codes "\n" in
    ap (λ r. b' ' ∷ b'<' ∷ r)
      (ap (shown false) (append_assoc (location e) tail (e.fields true ++ codes "\n"))
        ∙ shown-append (location e) (tail ++ (e.fields true ++ codes "\n"))
            (location-Without e plain)
        ∙ ap (λ r. location e ++ (shown_tail ++ r)) (plain.fields (codes "\n"))
        ∙ sym (append_assoc (location e) shown_tail fields))

shown-level :
    (l : Level) (e : LogEvent) (rest : Text)
    → e.level ≡ l
    → shown false (level_part true e ++ rest) ≡ level_part false e ++ shown false rest
unfolding shown
shown-level trace e rest q = rw q refl
shown-level debug e rest q = rw q refl
shown-level info e rest q = rw q refl
shown-level warn e rest q = rw q refl
shown-level error e rest q = rw q refl

-- A file and a terminal show the same line: the line that is formatted with escapes, as a terminal
-- shows it, is the line that is formatted without them.
pub shown-format_event :
    (e : LogEvent) → IsPlainEvent e → shown false (format_event true e) ≡ format_event false e
unfolding format_event
shown-format_event e plain =
    shown-append e.time _ plain.time
    ∙ ap (λ r. e.time ++ r)
        (shown-append (b' ' ∷ []) (level_part true e ++ after_level true e) (refl, tt)
          ∙ ap (λ r. b' ' ∷ r)
              (shown-level e.level e (after_level true e) refl
                ∙ ap (λ r. level_part false e ++ r) (shown-after_level e plain)))
