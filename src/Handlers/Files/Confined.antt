-- ===== src/Handlers/Files/Confined.antt =====
-- Which files are served: those whose resolved path starts with the text of the resolved root.
use s_size_store.Prelude.{
  Bool, true, false, [], ◌∷◌, Option, none, some, ◌≡◌, refl, arith, if◌then◌else◌, list_eq, nat_eq,
}
use s_size_store.Bytes.{Bytes, codes, contains, starts_with}
use s_size_store.Http.{HttpRequest, HttpResponse, set_header}
use s_size_store.Handlers.{make_response, text_response}
use s_size_store.Handlers.Files.{
  FileSystem, relative_path, join_path, or_empty_path, serve_file, confine, handle_file,
  file_response, not_modified,
}

file_response_body :
    (path tag : Bytes) (o : Option Bytes)
    → (file_response path tag o).status ≡ 200
    → o ≡ some (file_response path tag o).body
unfolding file_response make_response text_response set_header
file_response_body path tag none e = absurd (omega (arith, e))
file_response_body path [] (some body) e = refl
file_response_body path (c ∷ tag) (some body) e = refl

answer_body :
    (same : Bool) (path tag : Bytes) (o : Option Bytes)
    → (if same then not_modified tag else file_response path tag o).status ≡ 200
    → o ≡ some (if same then not_modified tag else file_response path tag o).body
unfolding not_modified set_header
answer_body true path tag o e = absurd (omega (arith, e))
answer_body false path tag o e = file_response_body path tag o e

serve_file_body :
    (fs : FileSystem) (req : HttpRequest) (path : Bytes)
    → (serve_file fs req path).status ≡ 200
    → fs.contents path ≡ some (serve_file fs req path).body
unfolding serve_file
serve_file_body fs req path e = answer_body _ path _ (fs.contents path) e

abbrev forbidden_unless : FileSystem → HttpRequest → Bytes → Bool → HttpResponse
forbidden_unless fs req path below =
    if below then serve_file fs req path else text_response 403 (codes "forbidden")

below_body :
    (fs : FileSystem) (req : HttpRequest) (path : Bytes) (below : Bool)
    → (forbidden_unless fs req path below).status ≡ 200
    → (below ≡ true) × (fs.contents path ≡ some (forbidden_unless fs req path below).body)
unfolding text_response make_response set_header
below_body fs req path true e = (refl, serve_file_body fs req path e)
below_body fs req path false e = absurd (omega (arith, e))

-- What a response with status 200 was made of.
abbrev pub IsServed : FileSystem → Bytes → Option Bytes → Bytes → Type 0
IsServed fs root found body =
    (path : Bytes) × (found ≡ some path)
    × (starts_with path root ≡ true)
    × (fs.contents path ≡ some body)

confine_body :
    (fs : FileSystem) (req : HttpRequest) (root : Bytes) (o : Option Bytes)
    → (confine fs req root o).status ≡ 200
    → IsServed fs root o (confine fs req root o).body
unfolding text_response make_response set_header
confine_body fs req root none e = absurd (omega (arith, e))
confine_body fs req root (some path) e =
    let (below, contents) = below_body fs req path (starts_with path root) e in
    (path, refl, below, contents)

abbrev checked : FileSystem → HttpRequest → Bytes → Bytes → Bool → HttpResponse
checked fs req root rel dots =
    if dots
    then text_response 403 (codes "forbidden")
    else confine fs req (or_empty_path (fs.canonical root))
        (fs.canonical (join_path root (relative_path rel)))

checked_body :
    (fs : FileSystem) (req : HttpRequest) (root rel : Bytes) (dots : Bool)
    → (checked fs req root rel dots).status ≡ 200
    → (dots ≡ false)
      × IsServed fs
          (or_empty_path (fs.canonical root))
          (fs.canonical (join_path root (relative_path rel)))
          (checked fs req root rel dots).body
unfolding text_response make_response set_header
checked_body fs req root rel true e = absurd (omega (arith, e))
checked_body fs req root rel false e = (refl, confine_body fs req _ _ e)

-- A request is answered with status 200 only if it names no `..`, and only with the contents of the
-- file that it resolves to, links followed; the text of that resolved path then starts with the
-- resolved root.
pub handle_file-IsServed :
    (fs : FileSystem) (req : HttpRequest) (root rel : Bytes)
    → (handle_file fs req root rel).status ≡ 200
    → (contains rel (codes "..") ≡ false)
      × IsServed fs
          (or_empty_path (fs.canonical root))
          (fs.canonical (join_path root (relative_path rel)))
          (handle_file fs req root rel).body
unfolding handle_file
handle_file-IsServed fs req root rel e = checked_body fs req root rel _ e
