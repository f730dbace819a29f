-- ===== src/Http/Headers.antt =====
-- What the values of a field are after a response is changed.
use s_size_store.Prelude.{
  ◌≡◌, ◌∙◌, refl, true, false, List, [], ◌∷◌, ◌++◌, arith, append-nil, if◌then◌else◌,
}
use s_size_store.Bytes.{Bytes}
use s_size_store.Http.{
  Field, field_beq, HttpResponse, without, set_header, insert_header, values, content_type, etag,
  cache_control, location, referrer_policy, set_cookie, server,
}

pub field_beq_refl : (f : Field) → field_beq f f ≡ true
unfolding field_beq
field_beq_refl content_type = refl
field_beq_refl etag = refl
field_beq_refl cache_control = refl
field_beq_refl location = refl
field_beq_refl referrer_policy = refl
field_beq_refl set_cookie = refl
field_beq_refl server = refl

values-append :
    (f : Field) (hs ks : List (Field × Bytes)) → values f (hs ++ ks) ≡ values f hs ++ values f ks
unfolding values
values-append f [] ks = refl
values-append f ((g, v) ∷ hs) ks = ground (arith, values-append f hs ks)

values-without_self : (f : Field) (hs : List (Field × Bytes)) → values f (without f hs) ≡ []
unfolding values without
values-without_self f [] = refl
values-without_self f ((g, v) ∷ hs) = ground (arith, values-without_self f hs)

field_beq_sound : (f g : Field) → field_beq f g ≡ true → f ≡ g
unfolding field_beq
field_beq_sound content_type content_type e = refl
field_beq_sound etag etag e = refl
field_beq_sound cache_control cache_control e = refl
field_beq_sound location location e = refl
field_beq_sound referrer_policy referrer_policy e = refl
field_beq_sound set_cookie set_cookie e = refl
field_beq_sound server server e = refl
field_beq_sound _ _ e = cc

values-without_ne :
    (f g : Field) (hs : List (Field × Bytes))
    → field_beq g f ≡ false
    → values f (without g hs) ≡ values f hs
unfolding values without
values-without_ne f g [] h = refl
values-without_ne f g ((k, v) ∷ hs) h =
    ground (arith, values-without_ne f g hs h, field_beq_sound k g, field_beq_sound k f)

pub values-set_header :
    (f : Field) (v : Bytes) (res : HttpResponse) → values f (set_header f v res).headers ≡ v ∷ []
unfolding set_header
values-set_header f v res =
    values-append f (without f res.headers) ((f, v) ∷ [])
    ∙ unfold values in ground (arith, values-without_self f res.headers, field_beq_refl f)

pub values-set_header_ne :
    (f g : Field) (v : Bytes) (res : HttpResponse)
    → field_beq g f ≡ false
    → values f (set_header g v res).headers ≡ values f res.headers
unfolding set_header
values-set_header_ne f g v res h =
    values-append f (without g res.headers) ((g, v) ∷ [])
    ∙ unfold values in
      ground (arith, values-without_ne f g res.headers h, append-nil (values f res.headers))

pub values-insert_header :
    (f g : Field) (v : Bytes) (res : HttpResponse)
    → values f (insert_header g v res).headers
      ≡ values f res.headers ++ (if field_beq g f then v ∷ [] else [])
unfolding insert_header
values-insert_header f g v res =
    values-append f res.headers ((g, v) ∷ []) ∙ unfold values in ground arith
