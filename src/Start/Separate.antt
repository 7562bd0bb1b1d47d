-- ===== src/Start/Separate.antt =====
-- main.go: a forced overwrite keeps away from the files of the service.
use Prim.Native.Char.{Char, code}
use text.Mathlib.TextLemmas.{nil-append, cons-append}
use text.Mathlib.TextEquality.{Char-path}
use doris_sync.Base.{String, ◌<>◌, ◌==◌, Bool, true, false, ◌||◌, Option, none, some}
use doris_sync.Base.{
  ◌≡◌, refl, ap, sym, ◌∙◌, ◌≢◌, ◌⊎◌, inl, inr, arith, eq_iff, eqb, eqb→eq, Bool-cases,
}
use doris_sync.Base.Text.{strip_prefix, has_prefix, trim_slashes}
use doris_sync.Base.Act.{Result, ok}
use doris_sync.Config.{S3Options, Options}
use doris_sync.Clock.{Deps}
use doris_sync.OverwritePlan.{OverwritePlan}
use doris_sync.Start.{Host, OnOk, OnOk-refuse, OnOk-and_then, OnOk-chain, OnOk-elim}
use doris_sync.Start.Flags.{
  Flags, is_nested, separate, validate_forced_overwrite_mode, validate_forced_overwrite, validated,
  with_force, with_state_file, with_start, with_partitions, with_interval, configure,
}

-- One text is the other, or a directory above it.
abbrev Nested : String → String → Type 0
Nested a b = (a ≡ b) ⊎ (has_prefix a (b <> "/") ≡ true) ⊎ (has_prefix b (a <> "/") ≡ true)

below :
    (c d : Char) (s p : String)
    → has_prefix (String.◌∷◌ c s) (String.◌∷◌ d p) ≡ true
    → (d ≡ c) × (has_prefix s p ≡ true)
unfolding has_prefix strip_prefix
below c d s p h = elim (Bool-cases (eqb (code d) (code c))) [
  | inl same ↦ (Char-path d c (eqb→eq _ _ same), rw same at h)
  | inr other ↦ absurd (let k = rw other at h in cc k)
]

above :
    (c : Char) (s p : String)
    → has_prefix s p ≡ true
    → has_prefix (String.◌∷◌ c s) (String.◌∷◌ c p) ≡ true
unfolding has_prefix strip_prefix
above c s p h = ground (arith, h)

from_root : (s : String) → has_prefix s "" ≡ true
unfolding has_prefix strip_prefix
from_root s = refl

nothing_above : (c : Char) (p : String) → ¬ (has_prefix "" (String.◌∷◌ c p) ≡ true)
unfolding has_prefix strip_prefix
nothing_above c p h = cc h

starts_root :
    (d e : Char) (b key : String)
    → has_prefix (String.◌∷◌ e key) ("" <> "/") ≡ true
    → has_prefix (String.◌∷◌ e key) (String.◌∷◌ d b <> "/") ≡ true
    → has_prefix (String.◌∷◌ d b) ("" <> "/") ≡ true
starts_root d e b key h k =
    let root = (below e "/" key "" (rw nil-append at h)).0 in
    let first = (below e d key (b <> "/") (rw cons-append at k)).0 in
    let same : d ≡ "/" = first ∙ sym root in rw (nil-append, same) (above "/" b "" (from_root b))

both_lem :
    (a b key : String)
    → has_prefix key (a <> "/") ≡ true
    → has_prefix key (b <> "/") ≡ true
    → Nested a b
both_lem String.[] String.[] key h k = inl refl
both_lem String.[] (String.◌∷◌ d b) String.[] h k = absurd (nothing_above _ _ (rw cons-append at k))
both_lem String.[] (String.◌∷◌ d b) (String.◌∷◌ e key) h k = inr (inr (starts_root d e b key h k))
both_lem (String.◌∷◌ c a) b String.[] h k = absurd (nothing_above _ _ (rw cons-append at h))
both_lem (String.◌∷◌ c a) String.[] (String.◌∷◌ e key) h k = inr (inl (starts_root c e a key k h))
both_lem (String.◌∷◌ c a) (String.◌∷◌ d b) (String.◌∷◌ e key) h k =
    let l = below e c key (a <> "/") (rw cons-append at h) in
    let r = below e d key (b <> "/") (rw cons-append at k) in
    let same : c ≡ d = l.0 ∙ sym r.0 in longer (both_lem a b key l.1 r.1) same
  where
    longer : Nested a b → c ≡ d → Nested (String.◌∷◌ c a) (String.◌∷◌ d b)
    longer (inl eq) same = inl (rw (same, eq) refl)
    longer (inr (inl under)) same = inr (inl (rw (same, cons-append) (above d a (b <> "/") under)))
    longer (inr (inr over)) same = inr (inr (rw (same, cons-append) (above d b (a <> "/") over)))

is_nested_complete : (a b : String) → Nested a b → is_nested a b ≡ true
unfolding is_nested
is_nested_complete a b n = ground (arith, eq_iff a b)

-- No key of the bucket lies under both.
abbrev pub Apart : String → String → Type 0
Apart a b =
    (key : String) → ¬ ((has_prefix key (a <> "/") ≡ true) × (has_prefix key (b <> "/") ≡ true))

apart_lem : (a b : String) → is_nested a b ≡ false → Apart a b
apart_lem a b h key (p, q) = let n = is_nested_complete a b (both_lem a b key p q) in cc (h, n)

pub or_false : (x y : Bool) → (x || y) ≡ false → (x ≡ false) × (y ≡ false)
or_false false y h = (refl, h)
or_false true y h = absurd (cc h)

-- Steps that leave the files of the run alone.
abbrev SameFiles : Options → Options → Type 0
SameFiles o o' = (o'.s3 ≡ o.s3) × (o'.state_file ≡ o.state_file)

module _ (host : Host) (deps : Deps) (flags : Flags) where
  partitions_lem : (o : Options) → OnOk (SameFiles o) (with_partitions host deps flags o)
  unfolding with_partitions
  partitions_lem o = elim (Bool-cases (flags.partitions == "")) [
    | inl none' ↦ rw none' (record { holds = (refl, refl) })
    | inr some' ↦ rw some' (OnOk-and_then _ _ λ names _. record { holds = (refl, refl) })
  ]

  abbrev Forced : Options → Options → Type 0
  Forced o o' =
      SameFiles o o'
      × (flags.once ≡ true)
      × (flags.sync_mode ≡ "overwrite")
      × (o'.force_overwrite ≡ true)

  mode_lem :
      (once : Bool) (mode : String)
      → OnOk (λ _. (once ≡ true) × (mode ≡ "overwrite")) (validate_forced_overwrite_mode once mode)
  unfolding validate_forced_overwrite_mode
  mode_lem once mode =
      OnOk-refuse _ _ _ λ good. record { holds = ground (arith, eq_iff mode "overwrite", good) }

  validated_lem :
      (plan : Option OverwritePlan) (o : Options)
      → OnOk
          (λ _. (flags.once ≡ true) × (flags.sync_mode ≡ "overwrite"))
          (validated host deps flags plan o)
  unfolding validate_forced_overwrite
  validated_lem none o = OnOk-chain _ _ (mode_lem flags.once flags.sync_mode) λ _ _ good.
      OnOk-refuse _ _ _ λ _. OnOk-refuse _ _ _ λ _. OnOk-refuse _ _ _ λ _. record { holds = good }
  validated_lem (some plan) o = mode_lem flags.once flags.sync_mode

  force_lem :
      (plan : Option OverwritePlan) (o : Options)
      → flags.force_overwrite ≡ true
      → OnOk (Forced o) (with_force host deps flags plan o)
  unfolding with_force
  force_lem plan o forced = rw forced (
      OnOk-chain _ _ (validated_lem plan o)
        λ _ _ good. record { holds = ((refl, refl), good.0, good.1, refl) })

  interval_lem :
      (o : Options)
      → OnOk
          (λ o'. SameFiles o o' × (o'.force_overwrite ≡ o.force_overwrite))
          (with_interval host deps flags o)
  unfolding with_interval
  interval_lem o = OnOk-refuse _ _ _ λ _. record { holds = ((refl, refl), refl) }

  -- What a forced run has in the place of the service's.
  abbrev Own : Options → Options → Type 0
  Own loaded o =
      ((a : String) × (b : String) × (host.absolute loaded.state_file ≡ ok a)
        × (host.absolute flags.state_file ≡ ok b)
        × (a ≢ b))
      × ((flags.state_file == "") ≡ false)
      × (is_nested (trim_slashes loaded.s3.prefix) (trim_slashes o.s3.prefix) ≡ false)
      × ((trim_slashes o.s3.prefix == "") ≡ false)

  separate_lem :
      (loaded : Options)
      → flags.force_overwrite ≡ true
      → OnOk (Own loaded) (separate host deps flags loaded)
  unfolding separate
  separate_lem loaded forced = simp forced (
      OnOk-refuse _ _ _ λ given. OnOk-and_then _ _ λ a abs_a. OnOk-and_then _ _ λ b abs_b.
        OnOk-refuse _ _ _ λ differ. OnOk-refuse _ _ _ λ rooted. record {
          holds = (
            (
              a,
              b,
              abs_a,
              abs_b,
              λ e. let t = (eq_iff a b).1 e in let f = (or_false (a == b) _ differ).0 in cc (t, f),
            ),
            (or_false (flags.state_file == "") _ given).0,
            (or_false (a == b) _ differ).1,
            rooted,
          );
        })

-- What a forced run is started with, over the options of the service.
pub record IsSeparate (host : Host) (flags : Flags) (read : Result Options) (o : Options)
    : Type 0 where
  pub service : Options
  pub was_read : read ≡ ok service
  pub once : flags.once ≡ true
  pub mode : flags.sync_mode ≡ "overwrite"
  pub forced : o.force_overwrite ≡ true
  pub own_state :
      (a : String) × (b : String) × (host.absolute service.state_file ≡ ok a)
      × (host.absolute o.state_file ≡ ok b)
      × (a ≢ b)
  pub own_keys : Apart (trim_slashes service.s3.prefix) (trim_slashes o.s3.prefix)
  pub rooted : (trim_slashes o.s3.prefix == "") ≡ false

module _ (host : Host) (deps : Deps) (flags : Flags) where
  chosen_lem :
      (o : Options)
      → (flags.state_file == "") ≡ false
      → (with_state_file host deps flags o).state_file ≡ flags.state_file
  chosen_lem o named = rw named refl

  separated_lem :
      (service o₁ o₂ o₃ o₄ : Options) (read : Result Options)
      → read ≡ ok service
      → Own host deps flags service o₁
      → SameFiles (with_start host deps flags (with_state_file host deps flags o₁)) o₂
      → Forced host deps flags o₂ o₃
      → SameFiles o₃ o₄ × (o₄.force_overwrite ≡ o₃.force_overwrite)
      → IsSeparate host flags read o₄
  separated_lem service o₁ o₂ o₃ o₄ read was own same₂ forced same₄ =
      let files : o₄.s3 ≡ o₁.s3 = same₄.0.0 ∙ forced.0.0 ∙ same₂.0 in
      let state : o₄.state_file ≡ flags.state_file =
        same₄.0.1 ∙ forced.0.1 ∙ same₂.1 ∙ chosen_lem o₁ own.1 in
      let prefix : o₄.s3.prefix ≡ o₁.s3.prefix = ap (λ (x : S3Options). x.prefix) files in
      record {
        service = service;
        was_read = was;
        once = forced.1;
        mode = forced.2;
        forced = same₄.1 ∙ forced.3;
        own_state = rw state own.0;
        own_keys = rw prefix (apart_lem _ _ own.2);
        rooted = rw prefix own.3;
      }

  configure_lem :
      (read : Result Options)
      → flags.force_overwrite ≡ true
      → OnOk (λ out. IsSeparate host flags read out.0) (configure host deps flags read)
  unfolding configure
  configure_lem read forced = OnOk-refuse _ _ _ λ _. OnOk-and_then _ _ λ service was.
      OnOk-and_then _ _ λ plan _.
        OnOk-chain _ _ (separate_lem host deps flags service forced) λ o₁ _ own.
          OnOk-and_then _ _ λ _ _. OnOk-and_then _ _ λ _ _.
            OnOk-chain _ _ (partitions_lem host deps flags _) λ o₂ _ same₂.
              OnOk-chain _ _ (force_lem host deps flags plan o₂ forced) λ o₃ _ same₃.
                OnOk-chain _ _ (interval_lem host deps flags o₃) λ o₄ _ same₄. record {
                  holds = separated_lem service o₁ o₂ o₃ o₄ read was own same₂ same₃ same₄;
                }

  -- When a run with --force-overwrite is let through, it runs once and in overwrite mode, its state
  -- file is not the one of the configuration, its prefix is not empty, and no key of the bucket lies
  -- both under its prefix and under the prefix of the configuration.
  pub configure-IsSeparate :
      (read : Result Options) (o : Options) (plan : Option OverwritePlan)
      → flags.force_overwrite ≡ true
      → configure host deps flags read ≡ ok (o, plan)
      → IsSeparate host flags read o
  configure-IsSeparate read o plan forced passed =
      OnOk-elim (configure host deps flags read) (o, plan) (configure_lem read forced) passed
