-- ===== src/Store.antt =====
-- objectstore.go: the layout of the bucket, listing and clearing. Opening the client is not here.
pub mod Prefix
use Prim.Native.Char.{Char, code}
use doris_sync.Base.{ℕ, ◌+◌, ◌/◌, ◌%◌, ◌-◌, String, ◌<>◌, ◌==◌, starts_with, Bool, true, false, not}
use doris_sync.Base.{List, [], ◌∷◌, ltb, leb, eqb, ◌||◌, ◌&&◌, if◌then◌else◌}
use doris_sync.Base.Text.{
  trim_slashes, char_text, has_suffix, has_prefix, to_lower, has_char, trim_prefix, count_char,
}
use doris_sync.Base.Act.{errorf, Act, pure, fail, ◌>>=◌, ◌>>◌}
use doris_sync.Config.{S3Options}
use doris_sync.Sql.{sort_texts}
use doris_sync.World.{World, Env, Object, random_hex, objects, delete_object}

-- The bytes of a character in UTF-8.
unfoldable pub utf8 : ℕ → List ℕ
utf8 c =
    if ltb c 0x80
    then c ∷ []
    else if ltb c 0x800
    then (0xC0 + c / 64) ∷ (0x80 + c % 64) ∷ []
    else if ltb c 0x10000
    then (0xE0 + c / 4096) ∷ (0x80 + (c / 64) % 64) ∷ (0x80 + c % 64) ∷ []
    else (0xF0 + c / 262144)
      ∷ (0x80 + (c / 4096) % 64)
      ∷ (0x80 + (c / 64) % 64)
      ∷ (0x80 + c % 64)
      ∷ []

-- A byte that url.PathEscape leaves alone: unreserved, or one of $ & + = : @.
unfoldable pub kept_in_path : ℕ → Bool
kept_in_path c =
    (leb b'a' c && leb c b'z')
    || (leb b'A' c && leb c b'Z')
    || (leb b'0' c && leb c b'9')
    || eqb c b'-'
    || eqb c b'_'
    || eqb c b'.'
    || eqb c b'~'
    || eqb c b'$'
    || eqb c b'&'
    || eqb c b'+'
    || eqb c b'='
    || eqb c b':'
    || eqb c b'@'

abbrev pub hex_digit : ℕ → String
hex_digit d = char_text d "0123456789ABCDEF"

unfoldable pub percent : List ℕ → String
unfolding char_text
percent [] = ""
percent (b ∷ bs) = "%" <> (hex_digit (b / 16) <> (hex_digit (b % 16) <> percent bs))

unfoldable pub escape_one : Char → String
unfolding kept_in_path utf8 percent
escape_one c = if kept_in_path (code c) then String.◌∷◌ c String.[] else percent (utf8 (code c))

-- url.PathEscape
unfoldable pub path_escape : String → String
unfolding escape_one
path_escape String.[] = ""
path_escape (String.◌∷◌ c s) = escape_one c <> path_escape s

unfoldable pub partition_prefix : S3Options → String → String → String → String → String
unfolding path_escape trim_slashes
partition_prefix o source_db target_db table partition =
    trim_slashes o.prefix
    <> ("/"
        <> (path_escape source_db
            <> ("/"
                <> (path_escape target_db
                    <> ("/" <> (path_escape table <> ("/" <> (path_escape partition <> "/"))))))))

unfoldable pub uri : S3Options → String → String
uri o key = "s3://" <> (o.bucket <> ("/" <> key))

-- The filter of `list`: nonempty Parquet files directly under the prefix.
unfoldable pub is_backup_file : String → Object → Bool
unfolding has_suffix to_lower has_char trim_prefix
is_backup_file prefix object =
    ltb 0 object.size
    && has_suffix (to_lower object.key) ".parquet"
    && not (has_char b'/' (trim_prefix object.key prefix))

unfoldable pub backup_files : String → List Object → List String
unfolding is_backup_file
backup_files prefix [] = []
backup_files prefix (object ∷ rest) =
    let files = backup_files prefix rest in
    if is_backup_file prefix object then object.key ∷ files else files

-- The guard of `clear`.
unfoldable pub is_unsafe_prefix : S3Options → String → Bool
unfolding trim_slashes has_prefix trim_prefix count_char
is_unsafe_prefix o prefix =
    let root = trim_slashes o.prefix in
    root == ""
    || not (has_prefix prefix (root <> "/"))
    || ltb (count_char b'/' (trim_prefix prefix (root <> "/"))) 4

module _ (env : Env) where
  unfoldable pub backup_generation_prefix : String → Act World String
  unfolding random_hex
  backup_generation_prefix prefix = do
    id ← random_hex env
    pure (prefix <> ("full/" <> (id <> "/")))

  unfoldable pub list : String → Act World (List String)
  unfolding objects backup_files sort_texts
  list prefix = do found ← objects env prefix; pure (sort_texts (backup_files prefix found))

  unfoldable pub delete_all : List Object → Act World (Unit {0})
  unfolding delete_object
  delete_all [] = pure tt
  delete_all (object ∷ rest) = let more = delete_all rest in do delete_object env object.key; more

  unfoldable pub clear : S3Options → String → Act World (Unit {0})
  unfolding is_unsafe_prefix objects delete_all
  clear o prefix =
      if is_unsafe_prefix o prefix
      then fail (errorf ("refusing to clear unsafe prefix " <> prefix))
      else do found ← objects env prefix; delete_all found
