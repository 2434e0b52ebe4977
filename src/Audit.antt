-- ===== src/Audit.antt =====
-- internal/logger/audit.go: the log of connections whose entries are chained by hashes. Go's JSON and
-- the daily files' writer, which the repository does not define, are parameters.
pub mod Chain
use omni_blob.Base.{
  ℕ, zero, suc, ◌+◌, ◌-◌, ◌*◌, ◌/◌, ◌%◌, ◌^◌, ◌≤◌, ◌<◌, String, ◌≡◌, refl, sym, ap, ◌∙◌, fun_ext,
  ◌≢◌, ◌↔◌, ◌⊎◌, inl, inr, Bool, true, false, ◌&&◌, ◌||◌, not, Option, none, some, List, [], ◌∷◌,
  ◌++◌, map, reverse, arith, ltb, leb, ◌==◌, if◌then◌else◌, ltb→lt, lt→ltb, leb→le, ==_iff, tests,
  Bool-cases, Option-cases, length, length-append, take, keep_if, any_of, all_of, head_of, All, Any,
  length-keep_if-le, keep_if-append, All-append, Text, codes, text_eq, text_eq_iff, text_eq_refl,
  text_eq-common, is_empty, or_else, has_prefix, has_prefix-append, has_prefix-common,
  has_prefix_self, has_prefix-map, trim_prefix, has_byte, contains, has_byte-append, drop_while,
  trim_if, is_space, trim_space, lower_byte, to_lower, cons_head, split_on, first_piece,
  digits_fuel, decimal, decimal-digits, decimal-given, contains_text, Assoc, lookup, insert, delete,
  lookup-insert, lookup-delete, is_digit, digits_value, digits_value-decimal,
}
use omni_blob.Storage.{Hash}

pub record AuditEntry : Type 0 where
  pub timestamp : Text
  pub remote_addr : Text
  pub x_forwarded_for : Text
  pub action : Text
  pub reason : Text
  pub previous_hash : Text
  pub current_hash : Text

-- encoding/json on entries. The fields are written one by one, so two entries that are written alike
-- without their hashes, and have one hash, are written alike.
pub record Json : Type 0 where
  pub marshal : AuditEntry → Text
  pub unmarshal : Text → Option AuditEntry
  pub marshal_sealed :
      (e e' : AuditEntry)
      → marshal (record e { current_hash = [] }) ≡ marshal (record e' { current_hash = [] })
      → e.current_hash ≡ e'.current_hash
      → marshal e ≡ marshal e'

-- The lines that were written, the newest first.
pub record AuditLogger : Type 0 where
  pub lines : List Text
  pub last_hash : Text

unfoldable pub genesis : Text
genesis = codes "0000000000000000000000000000000000000000000000000000000000000000"

-- The newest line that is not blank.
unfoldable pub last_line : List Text → Option Text
last_line [] = none
last_line (l ∷ ls) =
    let rest = last_line ls in if is_empty (trim_space l) then rest else some (trim_space l)

abbrev pub hash_or : Text → Option AuditEntry → Text
hash_or d none = d
hash_or d (some e) = or_else e.current_hash d

-- NewAuditLogger, on the lines of the latest file.
unfoldable pub new_audit_logger : Json → List Text → AuditLogger
unfolding last_line
new_audit_logger json lines = record {
  lines = lines;
  last_hash = elim (last_line lines) [
    | none ↦ genesis
    | some l ↦ hash_or genesis (json.unmarshal l)
  ];
}

-- The hash of an entry, which is computed before it is put into the entry.
unfoldable pub seal : Hash → Json → AuditEntry → Text
seal sha json e = sha.sum (json.marshal (record e { current_hash = [] }) ++ e.previous_hash)

abbrev pub unsealed : Text → Text → Text → Text → Text → Text → AuditEntry
unsealed time remote forwarded action reason previous = record {
  timestamp = time;
  remote_addr = remote;
  x_forwarded_for = forwarded;
  action = action;
  reason = reason;
  previous_hash = previous;
  current_hash = [];
}

-- LogConnection. The hash is taken for the last one also where the line is not written.
unfoldable pub log_connection :
    Hash → Json → Bool → Text → Text → Text → Text → Text → AuditLogger → AuditLogger × Bool
unfolding seal
log_connection sha json written time remote forwarded action reason a =
    let e = unsealed time remote forwarded action reason a.last_hash in
    let hash = seal sha json e in
    (
      record {
        lines =
            if written then json.marshal (record e { current_hash = hash }) ∷ a.lines else a.lines;
        last_hash = hash;
      },
      written,
    )
