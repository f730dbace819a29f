-- ===== src/Templating.antt =====
-- src/templating.hpp and src/templating.cpp: the templates that are parsed when the server is made, and
-- how one is rendered. Parsing and rendering a template are inja's, arguments here; none is an
-- exception.
pub mod Rendering
use s_size_store.Prelude.{
  Bool, true, false, ◌&&◌, List, [], ◌∷◌, Option, none, some, if◌then◌else◌, ◌==◌, list_eq, nat_eq,
  lookup, emplace,
}
use s_size_store.Bytes.{Bytes, codes}
use s_size_store.Json.{Json}
use s_size_store.Handlers.{Library}
use s_size_store.Handlers.Files.{extension}

-- An entry of the directory of the templates.
pub record PageEntry : Type 0 where
  pub is_regular : Bool
  pub name : Bytes

-- `!entry.is_regular_file() || entry.path().extension() != ".html"`, the other way round.
unfoldable pub is_template : PageEntry → Bool
is_template e = e.is_regular && extension e.name == codes ".html"

module _ {T : Type 0} (parse_template : Bytes → Option T) (draw : T → Json → Option Bytes) where
  -- `cache_`
  abbrev pub Cache : Type 0
  Cache = List (Bytes × T)

  -- The loop over the entries: one template that does not parse is an exception.
  unfoldable pub parse_all : List PageEntry → Cache → Option Cache
  unfolding is_template
  parse_all [] cache = some cache
  parse_all (e ∷ entries) cache =
      let skipped = parse_all entries cache in
      let parsed : Option Cache = elim (parse_template e.name) [
        | none ↦ none
        | some t ↦ parse_all entries (emplace e.name t cache)
      ] in
      if is_template e then parsed else skipped

  -- The constructor; none is a path that is no directory.
  unfoldable pub templating : Option (List PageEntry) → Option Cache
  unfolding parse_all
  templating none = none
  templating (some entries) = parse_all entries []

  -- `render`
  unfoldable pub render : Cache → Bytes → Json → Option Bytes
  render cache name value = elim (lookup name cache) [ none ↦ none | some t ↦ draw t value ]

  -- What the handlers see of it, beside the other libraries.
  unfoldable pub with_templates : Cache → Library → Library
  unfolding render
  with_templates cache lib = record lib { render = render cache }
