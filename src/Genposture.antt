-- ===== src/Genposture.antt =====
-- internal/genposture/main.go: the generator of the posture field constants.
pub mod Table
pub mod Spec
pub mod Load
pub mod Render
pub mod Rendered
pub mod Written
pub mod Sorted
pub mod Checked
pub mod Loaded
use firezone_sdk_go.Common.{
  ℕ, ◌-◌, [], ◌∷◌, ◌++◌, List, Option, none, some, Bytes, codes, Map, find, map, leb, ◌==◌, ◌&&◌,
  ◌||◌, if◌then◌else◌, split_on, cut_at,
}

-- The types of posture_fields.go.
pub data FieldType : Type 0 where
  bool_field : FieldType
  string_field : FieldType
  integer_field : FieldType
  float_field : FieldType
  version_field : FieldType
  timestamp_field : FieldType
  ip_field : FieldType
  json_field : FieldType
  string_array_field : FieldType

-- `goType`: the type of the constants for each type that the spec names.
abbrev pub go_type : Map FieldType
go_type =
    (codes "boolean", bool_field)
    ∷ (codes "string", string_field)
    ∷ (codes "enum_string", string_field)
    ∷ (codes "integer", integer_field)
    ∷ (codes "float", float_field)
    ∷ (codes "version", version_field)
    ∷ (codes "datetime", timestamp_field)
    ∷ (codes "ip", ip_field)
    ∷ (codes "ipv4", ip_field)
    ∷ (codes "ipv6", ip_field)
    ∷ (codes "json", json_field)
    ∷ (codes "string_array", string_array_field)
    ∷ []

-- `initialisms`: the words that need more than a leading capital.
abbrev pub initialisms : Map Bytes
initialisms =
    (codes "id", codes "ID")
    ∷ (codes "ip", codes "IP")
    ∷ (codes "ipv4", codes "IPv4")
    ∷ (codes "ipv6", codes "IPv6")
    ∷ (codes "os", codes "OS")
    ∷ (codes "mdm", codes "MDM")
    ∷ (codes "dns", codes "DNS")
    ∷ (codes "uuid", codes "UUID")
    ∷ (codes "udid", codes "UDID")
    ∷ (codes "imei", codes "IMEI")
    ∷ (codes "meid", codes "MEID")
    ∷ (codes "iccid", codes "ICCID")
    ∷ (codes "mac", codes "MAC")
    ∷ (codes "tpm", codes "TPM")
    ∷ (codes "vm", codes "VM")
    ∷ (codes "pac", codes "PAC")
    ∷ (codes "pcr", codes "PCR")
    ∷ (codes "pcr0", codes "PCR0")
    ∷ (codes "sid", codes "SID")
    ∷ (codes "ssv", codes "SSV")
    ∷ (codes "sip", codes "SIP")
    ∷ (codes "cpu", codes "CPU")
    ∷ (codes "eas", codes "EAS")
    ∷ (codes "ad", codes "AD")
    ∷ (codes "rbac", codes "RBAC")
    ∷ (codes "gb", codes "GB")
    ∷ (codes "pe", codes "PE")
    ∷ (codes "api", codes "API")
    ∷ (codes "url", codes "URL")
    ∷ (codes "sentinelone", codes "SentinelOne")
    ∷ []

-- `field`
pub record Field : Type 0 where
  pub name : Bytes
  pub spec_type : Bytes
  pub platforms : Bytes
  pub ident : Bytes

-- `strings.FieldsFunc` at "." and "_": the parts between them that are not empty.
abbrev pub nonempty_parts : List Bytes → List Bytes
nonempty_parts [] = []
nonempty_parts ([] ∷ parts) = nonempty_parts parts
nonempty_parts ((c ∷ part) ∷ parts) = (c ∷ part) ∷ nonempty_parts parts

unfoldable pub words_of : Bytes → List Bytes
words_of name = nonempty_parts (split_on b'_' (map (λ c. if c == b'.' then b'_' else c) name))

-- `strings.ToUpper(w[:1]) + w[1:]`
abbrev pub capital : Bytes → Bytes
capital [] = []
capital (c ∷ w) = (if leb b'a' c && leb c b'z' then c - 32 else c) ∷ w

abbrev pub spell : Bytes → Bytes
spell w = elim (find w initialisms) [ none ↦ capital w | some up ↦ up ]

abbrev pub spell_all : List Bytes → Bytes
spell_all [] = []
spell_all (w ∷ ws) = spell w ++ spell_all ws

-- `identFor`
unfoldable pub ident_for : Bytes → Bytes
unfolding words_of
ident_for name = codes "Posture" ++ spell_all (words_of name)

unfoldable pub provider : Field → Bytes
provider f = (cut_at b'.' f.name).0
