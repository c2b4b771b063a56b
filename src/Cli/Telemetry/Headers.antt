-- ===== src/Cli/Telemetry/Headers.antt =====
-- Headers written as OTEL_EXPORTER_OTLP_HEADERS wants them, and read back by src/cli/telemetry.rs.
use gruezi.Base.{
  ℕ, Option, ◌≡◌, ◌≢◌, refl, ap, ◌∙◌, Bool, true, false, not, ◌||◌, some, List, [], ◌∷◌, ◌++◌, map,
  reverse, any, is_empty, All, arith, ◌==◌, none, if◌then◌else◌,
}
use mathlib.Core.List.{reverse-append}
use gruezi.Base.Result.{ok}
use gruezi.Base.Word.{Bytes}
use gruezi.Text.{Text, codes, trim, trim_start, is_blank, is_whitespace, text_eq}
use gruezi.Api.{ends_with}
use gruezi.Cli.Telemetry.{
  split, split_once, to_ascii_lowercase, Header, ascii_header, binary_header, non_blank,
  parse_pairs, parse_pair, parse_header, parse_headers,
}

abbrev pub Lacks : ℕ → Text → Type 0
Lacks sep s = All (λ c. c ≢ sep) s

same : (c : ℕ) → (c == c) ≡ true
same c = ground arith

differs : (c sep : ℕ) → c ≢ sep → (c == sep) ≡ false
differs c sep h = ground arith

split-append :
    (sep : ℕ) (p rest : Text) → Lacks sep p → split sep (p ++ sep ∷ rest) ≡ p ∷ split sep rest
unfolding split
split-append sep [] rest h = rw (same sep) refl
split-append sep (c ∷ p) rest h = rw (differs c sep h.0, split-append sep p rest h.1) refl

split_last : (sep : ℕ) (p : Text) → Lacks sep p → split sep p ≡ p ∷ []
unfolding split
split_last sep [] h = refl
split_last sep (c ∷ p) h = rw (differs c sep h.0, split_last sep p h.1) refl

split_once-append :
    (sep : ℕ) (k v : Text) → Lacks sep k → split_once sep (k ++ sep ∷ v) ≡ some (k, v)
unfolding split_once
split_once-append sep [] v h = rw (same sep) refl
split_once-append sep (c ∷ k) v h = rw (differs c sep h.0, split_once-append sep k v h.1) refl

-- A character that `trim` does not take.
abbrev ink : ℕ → Bool
ink c = not (is_whitespace c)

any-++ : (p : ℕ → Bool) (xs ys : Text) → any p (xs ++ ys) ≡ (any p xs || any p ys)
any-++ p [] ys = refl
any-++ p (x ∷ xs) ys = ground (arith, any-++ p xs ys)

any-reverse : (p : ℕ → Bool) (xs : Text) → any p (reverse xs) ≡ any p xs
any-reverse p [] = refl
any-reverse p (x ∷ xs) =
    ap (any p) (reverse-append (x ∷ []) xs)
    ∙ any-++ p (reverse xs) (x ∷ [])
    ∙ ground (arith, any-reverse p xs)

any-trim_start : (s : Text) → any ink (trim_start s) ≡ any ink s
unfolding trim_start
any-trim_start [] = refl
any-trim_start (c ∷ cs) = ground (arith, any-trim_start cs)

inked : (s : Text) → any ink s ≡ true → is_empty s ≡ false
inked [] h = absurd (cc h)
inked (c ∷ cs) h = refl

is_blank-ink : (s : Text) → any ink s ≡ true → is_blank s ≡ false
unfolding is_blank trim
is_blank-ink s h = inked (reverse (trim_start (reverse (trim_start s)))) (
    any-reverse ink (trim_start (reverse (trim_start s)))
    ∙ any-trim_start (reverse (trim_start s))
    ∙ any-reverse ink (trim_start s)
    ∙ any-trim_start s
    ∙ h)

-- One pair of the variable, and the header that it stands for.
pub record Entry : Type 0 where
  pub key : Text
  pub value : Text
  pub header : Header

abbrev pub pair : Entry → Text
pair e = e.key ++ b'=' ∷ e.value

-- The pairs with commas between them.
abbrev pub render : List Entry → Text
render [] = []
render (e ∷ []) = pair e
render (e ∷ f ∷ es) = pair e ++ b',' ∷ render (f ∷ es)

abbrev pub header_name : Header → Text
header_name (binary_header name bytes) = name
header_name (ascii_header name value) = name

-- The last header that is given under a name, else `before`.
abbrev pub last_of : Text → List Entry → Option Header → Option Header
last_of name [] before = before
last_of name (e ∷ es) before =
    last_of name es (if text_eq e.key name then some e.header else before)

-- What `MetadataMap` documents: an insertion replaces what stood under the name.
pub record IsMap {M : Type 0} (new_map : M) (insert : Header → M → M)
    (get : Text → M → Option Header) : Type 0 where
  pub get_new : (name : Text) → get name new_map ≡ none
  pub get_inserted :
      (name : Text) (header : Header) (m : M)
      → get name (insert header m)
        ≡ (if text_eq (header_name header) name then some header else get name m)

Lacks-++ : (sep : ℕ) (xs ys : Text) → Lacks sep xs → Lacks sep ys → Lacks sep (xs ++ ys)
Lacks-++ sep [] ys hx hy = hy
Lacks-++ sep (x ∷ xs) ys hx hy = (hx.0, Lacks-++ sep xs ys hx.1 hy)

module _ (is_binary_key is_ascii_key is_ascii_value : Text → Bool)
    (decode_base64 : Text → Option Bytes) where
  -- The header of a name and a value: text, or bytes in Base64 where the name ends in `-bin`.
  pub data Spells : Text → Text → Header → Type 0 where
    as_text :
        (key value : Text)
        → ends_with key (codes "-bin") ≡ false
        → is_ascii_key key ≡ true
        → is_ascii_value value ≡ true
        → Spells key value (ascii_header key value)
    as_bytes :
        (key value : Text) (bytes : Bytes)
        → ends_with key (codes "-bin") ≡ true
        → is_binary_key key ≡ true
        → decode_base64 value ≡ some bytes
        → Spells key value (binary_header key bytes)

  -- The name is in lower case, both parts are trimmed, and none holds a character that parts the
  -- headers, but that a value may hold `=`.
  pub record IsEntry (e : Entry) : Type 0 where
    pub spells : Spells e.key e.value e.header
    pub lower : to_ascii_lowercase e.key ≡ e.key
    pub trimmed_key : trim e.key ≡ e.key
    pub trimmed_value : trim e.value ≡ e.value
    pub no_equals : Lacks b'=' e.key
    pub no_comma_key : Lacks b',' e.key
    pub no_comma_value : Lacks b',' e.value

  pair-Lacks : (e : Entry) → IsEntry e → Lacks b',' (pair e)
  pair-Lacks e h =
      Lacks-++ b',' e.key (b'=' ∷ e.value) h.no_comma_key ((λ e. omega arith), h.no_comma_value)

  pair-ink : (e : Entry) → is_blank (pair e) ≡ false
  pair-ink e =
      is_blank-ink (pair e)
        (any-++ ink e.key (b'=' ∷ e.value) ∙ unfold is_whitespace in ground arith)

  split-render :
      (e : Entry) (es : List Entry)
      → All IsEntry (e ∷ es)
      → non_blank (split b',' (render (e ∷ es))) ≡ map pair (e ∷ es)
  unfolding non_blank
  split-render e [] h = rw (split_last b',' (pair e) (pair-Lacks e h.0), pair-ink e) refl
  split-render e (f ∷ es) h =
      rw
        (
          split-append b',' (pair e) (render (f ∷ es)) (pair-Lacks e h.0),
          pair-ink e,
          split-render f es h.1,
        )
        refl

  parse_header_lem :
      (key value : Text) (header : Header)
      → Spells key value header
      → parse_header is_binary_key is_ascii_key is_ascii_value decode_base64 key value ≡ ok header
  unfolding parse_header
  parse_header_lem _ _ _ (as_text key value name valid_key valid_value) =
      rw (name, valid_key, valid_value) refl
  parse_header_lem _ _ _ (as_bytes key value bytes name valid_key decoded) =
      rw (name, valid_key, decoded) refl

  parse_pair_lem :
      (e : Entry)
      → IsEntry e
      → parse_pair is_binary_key is_ascii_key is_ascii_value decode_base64
          (split_once b'=' (pair e))
        ≡ ok e.header
  unfolding parse_pair
  parse_pair_lem e h =
      rw (split_once-append b'=' e.key e.value h.no_equals, h.trimmed_key, h.lower, h.trimmed_value)
        (parse_header_lem e.key e.value e.header h.spells)

  Spells-name :
      {key value : Text} {header : Header} → Spells key value header → header_name header ≡ key
  Spells-name (as_text key value a b c) = refl
  Spells-name (as_bytes key value bytes a b c) = refl

  module _ {M : Type 0} (new_map : M) (insert : Header → M → M)
      (get : Text → M → Option Header) where
    -- The loop inserts the headers one after another.
    inserted : List Entry → M → M
    inserted [] m = m
    inserted (e ∷ es) m = inserted es (insert e.header m)

    parse_pairs-inserted :
        (es : List Entry) (m : M)
        → All IsEntry es
        → parse_pairs is_binary_key is_ascii_key is_ascii_value decode_base64 new_map insert
            (map pair es)
            m
          ≡ ok (inserted es m)
    unfolding parse_pairs inserted
    parse_pairs-inserted [] m h = refl
    parse_pairs-inserted (e ∷ es) m h =
        rw (parse_pair_lem e h.0) (parse_pairs-inserted es (insert e.header m) h.1)

    get-inserted :
        (es : List Entry) (m : M) (name : Text)
        → IsMap new_map insert get
        → All IsEntry es
        → get name (inserted es m) ≡ last_of name es (get name m)
    unfolding inserted
    get-inserted [] m name is_map h = refl
    get-inserted (e ∷ es) m name is_map h =
        get-inserted es (insert e.header m) name is_map h.1
        ∙ ap (last_of name es) (
            is_map.get_inserted name e.header m
            ∙ ap (λ k. if text_eq k name then some e.header else get name m)
                (Spells-name h.0.spells))

    -- Let the map of headers hold nothing at first, and let an insertion replace what stood
    -- under its name and nothing else. Where each header has a name in lower case without `=`
    -- and commas, a value without commas, both trimmed, and is a text of a valid name and value
    -- or, if its name ends in `-bin`, the bytes that Base64 gives for the value, the text that
    -- writes each as `name=value`, with commas between them, is read to a map that holds, under
    -- every name, the last of these headers with that name, if there is one.
    pub parse_headers-render :
        (es : List Entry) (name : Text)
        → IsMap new_map insert get
        → All IsEntry es
        → (m : M) × (parse_headers is_binary_key is_ascii_key is_ascii_value decode_base64 new_map
              insert
              (render es)
            ≡ ok m)
          × (get name m ≡ last_of name es none)
    unfolding parse_headers
    parse_headers-render [] name is_map h = (
      new_map,
      (unfold split non_blank is_blank trim trim_start parse_pairs in refl),
      is_map.get_new name,
    )
    parse_headers-render (e ∷ es) name is_map h = (
      inserted (e ∷ es) new_map,
      rw (split-render e es h) (parse_pairs-inserted (e ∷ es) new_map h),
      get-inserted (e ∷ es) new_map name is_map h
          ∙ ap (last_of name (e ∷ es)) (is_map.get_new name),
    )
