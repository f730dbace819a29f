-- ===== src/Handlers/Files.antt =====
-- `handle_file`: static files and media, when no proxy serves them.
pub mod Confined
pub mod Validators
use s_size_store.Prelude.{
  ℕ, ℤ, pos, Bool, true, false, not, ◌&&◌, ◌||◌, List, [], ◌∷◌, ◌++◌, Option, none, some, ◌==◌,
  if◌then◌else◌, list_eq, nat_eq,
}
use s_size_store.Bytes.{Bytes, codes, is_empty, contains, starts_with}
use s_size_store.Decimal.{to_string}
use s_size_store.Http.{HttpRequest, HttpResponse, response, set_header, etag, cache_control}
use s_size_store.Handlers.{make_response, text_response}

-- What the handler Asks of the file system: `weakly_canonical` (none is an error), the time of the
-- last write, `file_size` (none is an error), and the contents (none if the file cannot be opened).
pub record FileSystem : Type 0 where
  pub canonical : Bytes → Option Bytes
  pub write_time : Bytes → ℤ
  pub file_size : Bytes → Option ℕ
  pub contents : Bytes → Option Bytes

-- `path.relative_path()`
unfoldable pub relative_path : Bytes → Bytes
relative_path [] = []
relative_path (c ∷ s) = let rest = relative_path s in if c == b'/' then rest else c ∷ s

abbrev ends_with_slash : Bytes → Bool
ends_with_slash [] = false
ends_with_slash (c ∷ []) = c == b'/'
ends_with_slash (c ∷ d ∷ s) = ends_with_slash (d ∷ s)

-- `root / p`, for a relative `p`
unfoldable pub join_path : Bytes → Bytes → Bytes
join_path root p = if is_empty root || ends_with_slash root then root ++ p else root ++ b'/' ∷ p

-- What stands before and behind the last such byte.
unfoldable pub split_last : ℕ → Bytes → Option (Bytes × Bytes)
split_last b [] = none
split_last b (c ∷ s) = elim (split_last b s) [
  | some (before, after) ↦ some (c ∷ before, after)
  | none ↦ if c == b then some ([], s) else none
]

abbrev name_in : Bytes → Option (Bytes × Bytes) → Bytes
name_in path none = path
name_in path (some (_, name)) = name

abbrev dotted : Option (Bytes × Bytes) → Bytes
dotted none = []
dotted (some ([], ext)) = []
dotted (some (_ ∷ _, ext)) = b'.' ∷ ext

-- `path.extension()`
unfoldable pub extension : Bytes → Bytes
unfolding split_last
extension path =
    let name = name_in path (split_last b'/' path) in
    if name == codes ".." then [] else dotted (split_last b'.' name)

unfoldable pub mime_type : Bytes → Bytes
mime_type ext =
    if ext == codes ".css"
    then codes "text/css; charset=utf-8"
    else if ext == codes ".js"
    then codes "application/javascript; charset=utf-8"
    else if ext == codes ".svg"
    then codes "image/svg+xml"
    else if ext == codes ".webp"
    then codes "image/webp"
    else if ext == codes ".avif"
    then codes "image/avif"
    else if ext == codes ".png"
    then codes "image/png"
    else if ext == codes ".jpg" || ext == codes ".jpeg"
    then codes "image/jpeg"
    else codes "application/octet-stream"

-- The validator, empty if the size cannot be read.
unfoldable pub make_etag : ℤ → Option ℕ → Bytes
make_etag time none = []
make_etag time (some size) =
    b'"' ∷ (to_string time ++ (b'-' ∷ (to_string (pos size) ++ (b'"' ∷ []))))

abbrev with_etag : Bytes → HttpResponse → HttpResponse
with_etag tag res = if is_empty tag then res else set_header etag tag res

unfoldable pub not_modified : Bytes → HttpResponse
not_modified tag = set_header cache_control (codes "no-cache") (set_header etag tag (response 304))

unfoldable pub file_response : Bytes → Bytes → Option Bytes → HttpResponse
file_response path tag none = text_response 404 (codes "not found")
file_response path tag (some body) = with_etag tag (
    set_header cache_control (codes "no-cache")
      (make_response 200 body (mime_type (extension path))))

-- The part of `handle_file` behind the checks of the path.
unfoldable pub serve_file : FileSystem → HttpRequest → Bytes → HttpResponse
unfolding make_etag not_modified file_response
serve_file fs req path =
    let tag = make_etag (fs.write_time path) (fs.file_size path) in
    if not (is_empty tag) && req.if_none_match == tag
    then not_modified tag
    else file_response path tag (fs.contents path)

-- An error at the root leaves the empty path, and the error code is overwritten.
abbrev pub or_empty_path : Option Bytes → Bytes
or_empty_path none = []
or_empty_path (some p) = p

abbrev pub confine : FileSystem → HttpRequest → Bytes → Option Bytes → HttpResponse
confine fs req root none = text_response 403 (codes "forbidden")
confine fs req root (some path) =
    if starts_with path root then serve_file fs req path else text_response 403 (codes "forbidden")

unfoldable pub handle_file : FileSystem → HttpRequest → Bytes → Bytes → HttpResponse
unfolding serve_file relative_path join_path
handle_file fs req root rel =
    if contains rel (codes "..")
    then text_response 403 (codes "forbidden")
    else confine fs req (or_empty_path (fs.canonical root))
        (fs.canonical (join_path root (relative_path rel)))
