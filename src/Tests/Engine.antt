-- ===== src/Tests/Engine.antt =====
-- What the runs of the logical mirror stand on: a table of one text attribute, its slot, and an engine
-- that keeps its rows in a list.
use pgiceberg.Common.{true, false, List, [], ◌∷◌, ◌++◌, Option, none, some}
use pgiceberg.Common.Bytes.{Bytes, text}
use pgiceberg.Common.Int.{pos}
use pgiceberg.Status.{Result, Status, PgError, ok, err, make_error, internal_error}
use pgiceberg.Outside.{Properties}
use pgiceberg.Recovery.Ownership.{find_property}
use pgiceberg.Logical.Output.{Attribute, Source}
use pgiceberg.Logical.Slot.{Mirror, SlotChange, Progress, World, Column, Row, External}
use pgiceberg.Logical.Mirror.{logical_batch_id_property}

abbrev pub too_large : PgError
too_large = make_error internal_error (text "too large") []

abbrev pub too_long : Result (List (Option Bytes))
too_long = err too_large

abbrev pub source : Source
source = record { namespace_name = some (text "public"); relid = 5 }

abbrev pub attribute : Attribute
attribute = record { attnum = 1; is_dropped = false; value = some (text "a") }

abbrev pub insert_text : Bytes
insert_text = 73 ∷ 9 ∷ 53 ∷ 9 ∷ 49 ∷ 9 ∷ 49 ∷ 9 ∷ 118 ∷ 9 ∷ 49 ∷ 58 ∷ 97 ∷ []

-- An engine: the rows of the table, those that are queued, the properties queued with them, and the
-- name of the last batch.
pub record Table : Type 0 where
  pub rows : List (Row Bytes)
  pub queued : List (Row Bytes)
  pub properties : Properties
  pub last_batch_id : Option Bytes

abbrev pub append_slots : List (Row Bytes) → Properties → Table → Status × Table
append_slots rows properties t =
    (ok tt, record t { queued = t.queued ++ rows; properties = properties })

abbrev pub flush : Table → Status × Table
flush t = (
  ok tt,
  record {
    rows = t.rows ++ t.queued;
    queued = [];
    properties = [];
    last_batch_id = find_property logical_batch_id_property t.properties;
  },
)

-- The callback of an aborted transaction: the table is at its snapshot from before, which has no
-- rows, and its properties stay.
abbrev pub take_back : Table → Table
take_back t = record t { rows = []; queued = [] }

abbrev pub view : Table → List (Row Bytes)
view t = t.rows ++ t.queued

abbrev pub column : Column
column = record { attnum = pos 1; is_dropped = false; type = 25 }

abbrev pub outside : External Table Bytes
outside = record {
  spi_status = λ call w. ok tt;
  changes_upto = λ n slot. n;
  sha256 = λ bytes. ok (171 ∷ []);
  vector_too_long = too_long;
  columns = column ∷ [];
  type_input = λ type value. ok value;
  read_table_property = λ t key. ok t.last_batch_id;
  append_slots = append_slots;
  flush_pending_modify_changes = flush;
  abort_transaction = take_back;
}

abbrev pub mirror : Mirror
mirror = record {
  source_relid = 5;
  catalog = [];
  name_space = text "ns";
  table_name = text "t";
  slot_name = text "s";
  batch_size = 8;
}

abbrev pub change : SlotChange
change = (text "0/1", insert_text)

abbrev pub old_progress : Progress
old_progress = record {
  last_flushed_lsn = none;
  last_applied_batch_id = none;
  last_error = none;
  enabled = true;
  is_ready = true;
}

abbrev pub empty_table : Table
empty_table = record { rows = []; queued = []; properties = []; last_batch_id = none }

abbrev pub one_change : World Table
one_change = record { slot = change ∷ []; progress = old_progress; target = empty_table }

-- "v1:", the number of changes, a colon, and the hash.
abbrev pub batch_id : Bytes
batch_id = 118 ∷ 49 ∷ 58 ∷ 49 ∷ 58 ∷ 97 ∷ 98 ∷ []

abbrev pub copied_table : Table
copied_table = record {
  rows = (some (text "a") ∷ []) ∷ [];
  queued = [];
  properties = [];
  last_batch_id = some batch_id;
}

abbrev pub copied : World Table
copied = record {
  slot = [];
  progress = record {
    last_flushed_lsn = some (text "0/1");
    last_applied_batch_id = some batch_id;
    last_error = none;
    enabled = true;
    is_ready = true;
  };
  target = copied_table;
}
