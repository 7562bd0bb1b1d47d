-- ===== src/Store/Prefix.antt =====
-- objectstore.go: the guard of `clear`, and the prefixes that the program builds.
use Prim.Native.Char.{Char, code}
use doris_sync.Base.{ℕ, ◌+◌, ◌/◌, ◌%◌, String, ◌<>◌, ◌==◌, true, false, some}
use doris_sync.Base.{List, [], ◌∷◌, ◌≡◌, refl, sym, ◌∙◌, ap, arith, Bool-cases, inl, inr}
use doris_sync.Base.Text.{has_char, count_char, trim_slashes, has_prefix, trim_prefix, strip_prefix}
use doris_sync.Base.Text.Chars.{
  has_char-append, has_char-char_text, both_false, count_char-append, count_char-none,
  strip_prefix-append,
}
use text.Mathlib.TextLemmas.{append_assoc}
use doris_sync.Config.{S3Options}
use doris_sync.Store.{
  percent, hex_digit, escape_one, path_escape, kept_in_path, utf8, partition_prefix,
  is_unsafe_prefix,
}

hex-slashless : (d : ℕ) → has_char b'/' (hex_digit d) ≡ false
hex-slashless d = has_char-char_text b'/' d "0123456789ABCDEF" (unfold has_char in refl)

slashless-append :
    (s t : String)
    → has_char b'/' s ≡ false
    → has_char b'/' t ≡ false
    → has_char b'/' (s <> t) ≡ false
slashless-append s t h k = has_char-append b'/' s t ∙ both_false h k

percent-slashless : (bytes : List ℕ) → has_char b'/' (percent bytes) ≡ false
unfolding percent
percent-slashless [] = unfold has_char in refl
percent-slashless (b ∷ bytes) = slashless-append "%" _ (unfold has_char in refl) (
    slashless-append _ _ (hex-slashless (b / 16))
      (slashless-append _ _ (hex-slashless (b % 16)) (percent-slashless bytes)))

kept-slashless :
    (c : Char) → kept_in_path (code c) ≡ true → has_char b'/' (String.◌∷◌ c String.[]) ≡ false
unfolding has_char kept_in_path
kept-slashless c h = ground (arith, h)

escape_one-slashless : (c : Char) → has_char b'/' (escape_one c) ≡ false
unfolding escape_one
escape_one-slashless c = elim (Bool-cases (kept_in_path (code c))) [
  | inl kept ↦ rw kept (kept-slashless c kept)
  | inr escaped ↦ rw escaped (percent-slashless (utf8 (code c)))
]

path_escape-slashless : (s : String) → has_char b'/' (path_escape s) ≡ false
unfolding path_escape
path_escape-slashless String.[] = unfold has_char in refl
path_escape-slashless (String.◌∷◌ c s) =
    slashless-append _ _ (escape_one-slashless c) (path_escape-slashless s)

-- One level of a prefix: a name and a slash.
level-count :
    (name rest : String)
    → count_char b'/' (path_escape name <> ("/" <> rest)) ≡ 1 + count_char b'/' rest
level-count name rest =
    let e₁ = count_char-append b'/' (path_escape name) ("/" <> rest) in
    let e₂ = count_char-none b'/' (path_escape name) (path_escape-slashless name) in
    let e₃ = count_char-append b'/' "/" rest in
    let e₄ : count_char b'/' "/" ≡ 1 = unfold count_char in refl in omega arith

last-count : (name : String) → count_char b'/' (path_escape name <> "/") ≡ 1
last-count name =
    let e₁ = count_char-append b'/' (path_escape name) "/" in
    let e₂ = count_char-none b'/' (path_escape name) (path_escape-slashless name) in
    let e₃ : count_char b'/' "/" ≡ 1 = unfold count_char in refl in omega arith

module _ (o : S3Options) (source_db target_db table name : String) where
  -- What is behind the root.
  abbrev levels : String
  levels =
      path_escape source_db
      <> ("/"
          <> (path_escape target_db
              <> ("/" <> (path_escape table <> ("/" <> (path_escape name <> "/"))))))

  levels-count : count_char b'/' levels ≡ 4
  levels-count =
      let e₁ = level-count source_db _ in
      let e₂ = level-count target_db _ in
      let e₃ = level-count table _ in
      e₁ ∙ ap (λ n. 1 + n) (e₂ ∙ ap (λ n. 1 + n) (e₃ ∙ ap (λ n. 1 + n) (last-count name)))

  behind_root :
      strip_prefix
        (trim_slashes o.prefix <> "/")
        (partition_prefix o source_db target_db table name)
      ≡ some levels
  unfolding partition_prefix
  behind_root =
      ap (strip_prefix _) (sym (append_assoc (trim_slashes o.prefix) "/" levels))
      ∙ strip_prefix-append (trim_slashes o.prefix <> "/") levels

  trimmed :
      trim_prefix (partition_prefix o source_db target_db table name) (trim_slashes o.prefix <> "/")
      ≡ levels
  unfolding trim_prefix
  trimmed = rw (trim_prefix, behind_root) refl

  -- The guard of clear lets a prefix that partitionPrefix builds through exactly when the
  -- configured root is not empty.
  pub is_unsafe_prefix-partition_prefix :
      is_unsafe_prefix o (partition_prefix o source_db target_db table name)
      ≡ (trim_slashes o.prefix == "")
  unfolding is_unsafe_prefix has_prefix
  is_unsafe_prefix-partition_prefix = rw (behind_root, trimmed, levels-count) (ground arith)

  -- A prefix that partitionPrefix builds has exactly five slashes more than the configured root,
  -- whatever the four names are: no name adds a level to it, or takes one away.
  pub count_char-partition_prefix :
      count_char b'/' (partition_prefix o source_db target_db table name)
      ≡ count_char b'/' (trim_slashes o.prefix) + 5
  unfolding partition_prefix
  count_char-partition_prefix =
      let whole = count_char-append b'/' (trim_slashes o.prefix) ("/" <> levels) in
      let below = count_char-append b'/' "/" levels in
      let one : count_char b'/' "/" ≡ 1 = unfold count_char in refl in
      let four = levels-count in omega arith
