-- ===== src/Store/Settings.antt =====
-- crates/lantern-core/src/store.rs: the small tables: `identity`, `profile`, `blocked`, `announcements`,
-- `bookmarks` and `blobs`. A table is a map from its primary key; `now` is the clock, and a failure of SQLite
-- is left out.
pub mod Identity
mod Tests
use xivlantern_dalamud.Prelude.{
  ℕ, ℤ, ◌+◌, ◌-◌, ◌%◌, ◌^◌, Bool, true, false, not, ◌&&◌, Option, none, some, List, [], ◌∷◌, ◌==◌,
  nat_eq, bytes_eq, int_leb, ltb, length, take, retain, PartialEq, if◌then◌else◌,
}
use xivlantern_dalamud.Bytes.{Bytes, i64_of_bits}
use xivlantern_dalamud.Error.{Result, ok, err, arg}
use xivlantern_dalamud.HashMap.{HashMap, get, contains_key, insert, remove, keys}
use xivlantern_dalamud.Ticket.Scope.{Scope, custom, from_u32, as_u32}
use xivlantern_dalamud.Author.{Announcement}

-- The row of the table `identity`, if there is one, and a key that the system generates if it is asked.
unfoldable pub identity : Option Bytes → Bytes → Option Bytes × Bytes
identity none fresh = (some fresh, fresh)
identity (some secret) fresh =
    if length secret == 32 then (some secret, secret) else (some fresh, fresh)

abbrev pub Profile : Type 0
Profile = HashMap Bytes Bytes

unfoldable pub profile_get : Profile → Bytes → Option Bytes
profile_get profile key = get profile key

unfoldable pub profile_set : Profile → Bytes → Bytes → Profile
profile_set profile key value = insert profile key value

-- `INSERT OR IGNORE`: a node that is blocked keeps its time.
unfoldable pub block : HashMap Bytes ℤ → Bytes → ℤ → HashMap Bytes ℤ
block rows node_id now = if contains_key rows node_id then rows else insert rows node_id now

unfoldable pub unblock : HashMap Bytes ℤ → Bytes → HashMap Bytes ℤ × Bool
unblock rows node_id = (remove rows node_id, contains_key rows node_id)

-- `ORDER BY blocked_at`
unfoldable pub put_blocked : Bytes × ℤ → HashMap Bytes ℤ → HashMap Bytes ℤ
put_blocked x [] = x ∷ []
put_blocked x (y ∷ rows) = if int_leb x.1 y.1 then x ∷ y ∷ rows else y ∷ put_blocked x rows

unfoldable pub first_blocked : HashMap Bytes ℤ → HashMap Bytes ℤ
unfolding put_blocked
first_blocked [] = []
first_blocked (x ∷ rows) = put_blocked x (first_blocked rows)

unfoldable pub blocked : HashMap Bytes ℤ → List Bytes
unfolding first_blocked
blocked rows = keys (first_blocked rows)

pub record Bookmark : Type 0 where
  pub scope : ℕ
  pub title : Bytes
  pub ticket : Bytes
  pub updated_at : ℤ

unfoldable pub bookmark_put :
    HashMap Bytes Bookmark
    → Bytes
    → Scope
    → Bytes
    → Bytes
    → ℤ
    → HashMap Bytes Bookmark × Result (Unit {0})
bookmark_put rows [] scope title ticket now = (rows, err (arg "bookmark id must not be empty"))
bookmark_put rows (c ∷ id) scope title ticket now = (
  insert rows (c ∷ id)
      (record { scope = as_u32 scope; title = title; ticket = ticket; updated_at = now }),
  ok tt,
)

unfoldable pub bookmark_forget : HashMap Bytes Bookmark → Bytes → HashMap Bytes Bookmark × Bool
bookmark_forget rows id = (remove rows id, contains_key rows id)

-- `ORDER BY updated_at DESC`
unfoldable pub put_bookmark : Bytes × Bookmark → HashMap Bytes Bookmark → HashMap Bytes Bookmark
put_bookmark x [] = x ∷ []
put_bookmark x (y ∷ rows) =
    if int_leb y.1.updated_at x.1.updated_at then x ∷ y ∷ rows else y ∷ put_bookmark x rows

unfoldable pub latest_bookmarks : HashMap Bytes Bookmark → HashMap Bytes Bookmark
unfolding put_bookmark
latest_bookmarks [] = []
latest_bookmarks (x ∷ rows) = put_bookmark x (latest_bookmarks rows)

-- `Scope::from_u32(..).unwrap_or(Scope::Custom)`
unfoldable pub scope_or_custom : ℕ → Scope
scope_or_custom v = elim (from_u32 v) [ none ↦ custom | some scope ↦ scope ]

-- The bookmarks, each with its scope.
unfoldable pub with_scopes : HashMap Bytes Bookmark → List (Bytes × (Scope × Bookmark))
unfolding scope_or_custom
with_scopes [] = []
with_scopes ((id, row) ∷ rows) = (id, (scope_or_custom row.scope, row)) ∷ with_scopes rows

unfoldable pub bookmarks : HashMap Bytes Bookmark → List (Bytes × (Scope × Bookmark))
unfolding latest_bookmarks with_scopes
bookmarks rows = with_scopes (latest_bookmarks rows)

pub record BlobRow : Type 0 where
  pub name : Bytes
  pub size : ℕ
  pub added_at : ℤ

-- A file noted before keeps its time.
unfoldable pub blob_note : HashMap Bytes BlobRow → Bytes → Bytes → ℕ → ℤ → HashMap Bytes BlobRow
blob_note rows hash name size now = elim (get rows hash) [
  | none ↦ insert rows hash (record { name = name; size = size; added_at = now })
  | some row ↦ insert rows hash (record row { name = name; size = size })
]

-- The primary key of `announcements` is the author and the number.
pub record AnnouncementRow : Type 0 where
  pub author : Bytes
  pub content : Announcement
  pub signed : Bytes
  pub received_at : ℤ

unfoldable pub is_announcement : Bytes → ℕ → AnnouncementRow → Bool
is_announcement author seq row = row.author == author && row.content.seq == seq

unfoldable pub has_announcement : List AnnouncementRow → Bytes → ℕ → Bool
unfolding is_announcement
has_announcement [] author seq = false
has_announcement (row ∷ rows) author seq =
    if is_announcement author seq row then true else has_announcement rows author seq

-- Whether it is news.
unfoldable pub announcement_put :
    List AnnouncementRow → Bytes → Announcement → Bytes → ℤ → List AnnouncementRow × Bool
unfolding has_announcement
announcement_put rows author a signed now =
    if has_announcement rows author a.seq
    then (rows, false)
    else (record { author = author; content = a; signed = signed; received_at = now } ∷ rows, true)

-- `ORDER BY seq DESC`: a number is stored as `i64`, and compared as one.
unfoldable pub is_newer : AnnouncementRow → AnnouncementRow → Bool
is_newer a b = int_leb (i64_of_bits b.content.seq) (i64_of_bits a.content.seq)

unfoldable pub put_announcement : AnnouncementRow → List AnnouncementRow → List AnnouncementRow
unfolding is_newer
put_announcement x [] = x ∷ []
put_announcement x (y ∷ rows) = if is_newer x y then x ∷ y ∷ rows else y ∷ put_announcement x rows

unfoldable pub latest_announcements : List AnnouncementRow → List AnnouncementRow
unfolding put_announcement
latest_announcements [] = []
latest_announcements (x ∷ rows) = put_announcement x (latest_announcements rows)

unfoldable pub content_of : List AnnouncementRow → List (Announcement × Bytes)
content_of [] = []
content_of (row ∷ rows) = (row.content, row.signed) ∷ content_of rows

unfoldable pub announcements : List AnnouncementRow → Bytes → ℕ → List (Announcement × Bytes)
unfolding latest_announcements content_of
announcements rows author limit =
    content_of (take limit (latest_announcements (retain (λ row. row.author == author) rows)))
