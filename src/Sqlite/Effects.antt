-- ===== src/Sqlite/Effects.antt =====
-- How a state of sqlite is read, and what a step of each statement does to the tables, by its code.
use s_size_store.Prelude.{
  ℕ, ℤ, Bool, true, false, List, [], ◌∷◌, Option, none, some, ◌≡◌, if◌then◌else◌, ◌==◌, nat_eq, any,
}
use s_size_store.Bytes.{Bytes}
use s_size_store.Models.{Event, event_type_to_string}
use s_size_store.Events.{Conversion}
use s_size_store.Db.{Tables, insert_event, upsert, row_of, known_status, has_token}
use s_size_store.Db.Items.{PartnerRow}
use s_size_store.Sqlite.{
  Sqlite, Sql, Value, Code, integer, text, row, done, refused, of_span, of_optional, of_text,
}

-- How a state of sqlite is read: the tables as a statement sees them and as ROLLBACK would leave them,
-- whether a transaction is open, the rows of `partners`, how many connections are open, the version of
-- the schema, which statements have not been finalized (the newest first), and of a statement its text,
-- whether its next step is the first since it was prepared or reset, its parameters and the partners
-- that it has still to return.
pub record Meaning (S : Type 0) : Type 0 where
  pub view : S → Tables
  pub home : S → Tables
  pub in_transaction : S → Bool
  pub partners : S → List PartnerRow
  pub connections : S → ℕ
  pub version : S → ℤ
  pub live : S → List ℕ
  pub holds : ℕ → S → Option Sql
  pub fresh : ℕ → S → Bool
  pub param : ℕ → S → ℕ → Value
  pub left : ℕ → S → List PartnerRow

abbrev pub update : (ℕ → Value) → ℕ → Value → ℕ → Value
update p i v j = if i == j then v else p j

abbrev pub opened : Option ℕ → List ℕ → List ℕ
opened none live = live
opened (some st) live = st ∷ live

-- The parameters are the columns of a row of `events`, in the order of the text: an empty token and an
-- empty hash are NULL, and so is what is missing.
pub record IsEventRow (p : ℕ → Value) (ev : Event) : Type 0 where
  pub ts : p 1 ≡ integer ev.ts
  pub anon_id : p 2 ≡ text ev.anon_id
  pub session_id : p 3 ≡ text ev.session_id
  pub type : p 4 ≡ text (event_type_to_string ev.type)
  pub item_id : p 5 ≡ of_optional ev.item_id
  pub position : p 6 ≡ of_optional ev.position
  pub surface : p 7 ≡ text ev.surface
  pub click_token : p 8 ≡ of_text ev.click_token
  pub source : p 9 ≡ text ev.source
  pub ua_class : p 10 ≡ text ev.ua_class
  pub ip_hash : p 11 ≡ of_span ev.ip_hash
  pub payload : p 12 ≡ text ev.payload

-- The parameters are the columns of a row of `conversions`.
pub record IsConversionRow (p : ℕ → Value) (c : Conversion) : Type 0 where
  pub click_token : p 1 ≡ text c.click_token
  pub ts : p 2 ≡ integer c.ts
  pub order_ref : p 3 ≡ of_text c.order_ref
  pub amount : p 4 ≡ of_optional c.amount
  pub status : p 5 ≡ text c.status
  pub raw : p 6 ≡ text c.raw

module _ {S : Type 0} (m : Meaning S) where
  -- The tables and the transaction are as they were.
  pub record SameTables (s s' : S) : Type 0 where
    pub view : m.view s' ≡ m.view s
    pub home : m.home s' ≡ m.home s
    pub in_transaction : m.in_transaction s' ≡ m.in_transaction s

  -- No statement has come or gone, and this one has its text.
  pub record SameStatements (st : ℕ) (s s' : S) : Type 0 where
    pub live : m.live s' ≡ m.live s
    pub holds : m.holds st s' ≡ m.holds st s

  -- An INSERT of an event inside a transaction, by what `sqlite3_step` returns. Where it is refused,
  -- sqlite may have rolled the transaction back.
  abbrev pub EventStep : Event → S → S → Code → Type 0
  EventStep ev s s' row = ⊥
  EventStep ev s s' done =
      (insert_event ev (m.view s).events ≡ some (m.view s').events)
      × ((m.view s').conversions ≡ (m.view s).conversions)
      × ((m.view s').daily ≡ (m.view s).daily)
      × (m.home s' ≡ m.home s)
      × (m.in_transaction s' ≡ m.in_transaction s)
  EventStep ev s s' refused = m.home s' ≡ m.home s

  -- The SELECT of the click that has a token.
  abbrev pub FindStep : Bytes → S → Code → Type 0
  FindStep token s row = any (has_token token) (m.view s).events ≡ true
  FindStep token s done = any (has_token token) (m.view s).events ≡ false
  FindStep token s refused = Unit

  -- A statement that writes outside of a transaction: it does what its text says, or nothing.
  abbrev pub WriteStep : (Tables → Option Tables) → S → S → Code → Type 0
  WriteStep effect s s' row = ⊥
  WriteStep effect s s' done =
      (effect (m.view s) ≡ some (m.view s')) × (m.in_transaction s' ≡ false)
  WriteStep effect s s' refused = (m.view s' ≡ m.view s) × (m.in_transaction s' ≡ false)

  -- The end of a transaction.
  abbrev pub CommitStep : S → S → Bool → Type 0
  CommitStep s s' true =
      (m.view s' ≡ m.view s) × (m.home s' ≡ m.view s) × (m.in_transaction s' ≡ false)
  CommitStep s s' false = m.home s' ≡ m.home s

  abbrev pub BeginStep : S → S → Bool → Type 0
  BeginStep s s' true =
      (m.view s' ≡ m.view s) × (m.home s' ≡ m.home s) × (m.in_transaction s' ≡ true)
  BeginStep s s' false =
      (m.view s' ≡ m.view s) × (m.home s' ≡ m.home s) × (m.in_transaction s' ≡ m.in_transaction s)

-- The effect of the upsert: none if a CHECK fails.
abbrev pub upsert_effect : Conversion → Tables → Option Tables
upsert_effect c t =
    if known_status c.status
    then some (record t { conversions = upsert (row_of c) t.conversions })
    else none

module _ {S : Type 0} (q : Sqlite S) (m : Meaning S) where
  -- The columns of the current row are those of a row of `partners`.
  pub record IsPartnerRow (st : ℕ) (s : S) (r : PartnerRow) : Type 0 where
    pub id : q.sqlite3_column_int64 st 0 s ≡ r.id
    pub code : q.sqlite3_column_text st 1 s ≡ some r.code
    pub title : q.sqlite3_column_text st 2 s ≡ some r.title
    pub link_template : q.sqlite3_column_text st 3 s ≡ some r.link_template
    pub enabled : q.sqlite3_column_int64 st 4 s ≡ r.enabled

  -- The SELECT of the partners, whose rows come one by one.
  abbrev pub PartnerStep : ℕ → S → S → Code → Type 0
  PartnerStep st s s' row =
      (r : PartnerRow) × (m.left st s ≡ r ∷ m.left st s') × IsPartnerRow st s' r
  PartnerStep st s s' done = m.left st s ≡ []
  PartnerStep st s s' refused = Unit

  -- The PRAGMA that reads the version returns one row.
  abbrev pub VersionStep : ℕ → S → S → Code → Type 0
  VersionStep st s s' row = q.sqlite3_column_int64 st 0 s' ≡ m.version s
  VersionStep st s s' done = ⊥
  VersionStep st s s' refused = Unit
