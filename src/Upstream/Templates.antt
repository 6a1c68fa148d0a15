-- ===== src/Upstream/Templates.antt =====
-- renderTemplate and normalizePlaceholder of src/upstream/messages.go, and lostEventContext and
-- lostEventPayload of src/upstream/ale.go. A template is scanned as the expression
-- \{[A-Za-z0-9_.]+\} matches it. The values of the settings are an argument, and the reader and the
-- writer of JSON are parameters.
pub mod Rendering
use air_gap.Common.{
  Bytes, ℕ, ◌+◌, List, [], ◌∷◌, ◌++◌, Bool, true, false, ◌&&◌, ◌||◌, leb, ◌==◌, if◌then◌else◌,
  Option, none, some, length, map,
}
use air_gap.Common.Integers.{ℤ, pos}
use air_gap.Common.Maps.{lookup, bytes_eq, bytes_beq}
use air_gap.Common.Text.{codes, contains_text, format_int}
use air_gap.Upstream.MessageId.{split_message_id}

abbrev is_capital : ℕ → Bool
is_capital b = leb b'A' b && leb b b'Z'

-- normalizePlaceholder
unfoldable pub normalize_placeholder : Bytes → Bytes
normalize_placeholder [] = []
normalize_placeholder (b ∷ name) =
    let rest = normalize_placeholder name in
    if b == b'_' || b == b'.' then rest else if is_capital b then (b + 32) ∷ rest else b ∷ rest

-- The bytes of a placeholder's name.
abbrev pub is_name_byte : ℕ → Bool
is_name_byte b =
    leb b'A' b && leb b b'Z'
    || leb b'a' b && leb b b'z'
    || leb b'0' b && leb b b'9'
    || b == b'_'
    || b == b'.'

-- What a placeholder is replaced by: itself if its name is not known.
abbrev pub or_placeholder : Bytes → Option Bytes → Bytes
or_placeholder name none = b'{' ∷ (name ++ (b'}' ∷ []))
or_placeholder name (some value) = value

abbrev pub replaced : List (Bytes × Bytes) → Bytes → Bytes
replaced values name = or_placeholder name (lookup (normalize_placeholder name) values)

-- A name is taken back when no placeholder ends behind it.
abbrev pub closed : List (Bytes × Bytes) → Bytes → Bytes → Bytes
closed values [] rest = b'{' ∷ b'}' ∷ rest
closed values (b ∷ name) rest = replaced values (b ∷ name) ++ rest

-- ReplaceAllStringFunc of renderTemplate; the name behind an open brace is carried along.
unfoldable pub expand : List (Bytes × Bytes) → Option Bytes → Bytes → Bytes
expand values none [] = []
expand values (some name) [] = b'{' ∷ name
expand values none (b ∷ text) =
    let opened = expand values (some []) text in
    let plain = expand values none text in if b == b'{' then opened else b ∷ plain
expand values (some name) (b ∷ text) =
    let longer = expand values (some (name ++ (b ∷ []))) text in
    let opened = expand values (some []) text in
    let plain = expand values none text in
    if is_name_byte b
    then longer
    else if b == b'}'
    then closed values name plain
    else if b == b'{'
    then b'{' ∷ (name ++ opened)
    else b'{' ∷ (name ++ (b ∷ plain))

abbrev pub normalized : Bytes × Bytes → Bytes × Bytes
normalized (name, value) = (normalize_placeholder name, value)

-- renderTemplate: the values of the event come before those of the settings.
unfoldable pub render_template : List (Bytes × Bytes) → Bytes → List (Bytes × Bytes) → Bytes
render_template settings template context =
    if length template == 0
    then template
    else if contains_text template (b'{' ∷ [])
    then expand (map normalized (context ++ settings)) none template
    else template

-- A JSON value as encoding/json decodes it: other is a number, a truth value or null.
mutual
  pub data Json : Type 0 where
    text : Bytes → Json
    other : Bytes → Json
    object : Fields → Json
    array : Items → Json

  pub data Fields : Type 0 where
    no_fields : Fields
    field : Bytes → Json → Fields → Fields

  pub data Items : Type 0 where
    no_items : Items
    item : Json → Items → Items

-- What renderJSONValue does with a child of an object or an array.
module _ (settings context : List (Bytes × Bytes)) where
  unfoldable mutual
    pub render_json_value : Json → Json
    render_json_value (text t) = text (render_template settings t context)
    render_json_value (other t) = other t
    render_json_value (object fields) = object (render_fields fields)
    render_json_value (array items) = array (render_items items)

    pub render_fields : Fields → Fields
    render_fields no_fields = no_fields
    render_fields (field name child fields) =
        field name (render_json_value child) (render_fields fields)

    pub render_items : Items → Items
    render_items no_items = no_items
    render_items (item child items) = item (render_json_value child) (render_items items)

-- lostEventContext
unfoldable pub lost_event_context : Bytes → Bytes → Bytes → ℕ → List (Bytes × Bytes)
lost_event_context id reason lost_event_file event_bytes =
    let (topic, (partition, offset)) = split_message_id id in
    let file =
      if length lost_event_file == 0
      then codes "no directory (lostEventDirectory is not configured)"
      else lost_event_file in
    (codes "topic_name", topic)
    ∷ (codes "partition", partition)
    ∷ (codes "row", offset)
    ∷ (codes "reason", reason)
    ∷ (codes "eventBytes", format_int (pos event_bytes))
    ∷ (codes "lostEventFile", file)
    ∷ []

-- The settings of lostEventPayload.
pub record GuardSettings : Type 0 where
  pub message : Bytes
  pub default_message : Bytes
  pub format : Bytes
  pub values : List (Bytes × Bytes)

-- A guard that is no JSON object, or of an unknown format, is an error.
module _ (decode_json : Bytes → Option Fields) (encode_json : Fields → Option Bytes) where
  abbrev rendered_json : List (Bytes × Bytes) → List (Bytes × Bytes) → Option Fields → Option Bytes
  rendered_json values context none = none
  rendered_json values context (some fields) = encode_json (render_fields values context fields)

  -- lostEventPayload: none is an error.
  unfoldable pub lost_event_payload : GuardSettings → List (Bytes × Bytes) → Option Bytes
  lost_event_payload c context =
      let template = if length c.message == 0 then c.default_message else c.message in
      if bytes_beq c.format (codes "json")
      then rendered_json c.values context (decode_json template)
      else if bytes_beq c.format (codes "text")
      then some (render_template c.values template context)
      else none
