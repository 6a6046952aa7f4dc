-- ===== src/Storage/Tags.antt =====
-- pkg/storage/clickhouse.go: the column of a span's tags, written by `spanTagsToString` and read by
-- `parseSpanTags`.
use a.Prelude.{
  ◌≡◌, ◌≢◌, refl, sym, ◌∙◌, ap, arith, false, List, [], ◌∷◌, ◌++◌, append_assoc, append-nil, map,
  All, All-append,
}
use a.Golang.Slice.{Bytes}
use a.Golang.Split.{split_at, Lacks, split_at-part, split_at-last, cut_byte}
use a.Golang.Text.{text, bytes_eq, join}
use a.Model.Span.{Tags, TagValue, insert_tag}
use a.Storage.Query.{read_tags, parse_span_tags}
use a.Storage.Row.{format_value, span_tags_to_string}

-- A tag whose key has no comma and no equals sign, and whose value has no comma.
abbrev pub IsPlain : Bytes × TagValue → Type 0
IsPlain (key, value) = Lacks b',' key × Lacks b'=' key × Lacks b',' (format_value value)

-- Keys that differ from each other, as those of a map do.
abbrev pub AreDistinct : Tags → Type 0
AreDistinct [] = Unit {0}
AreDistinct ((key, value) ∷ tags) = All (λ kv. bytes_eq key kv.0 ≡ false) tags × AreDistinct tags

-- The tag as a text, which is what comes back.
abbrev pub as_text : Bytes × TagValue → Bytes × TagValue
as_text (key, value) = (key, TagValue.str (format_value value))

abbrev part_of : Bytes × TagValue → Bytes
part_of kv = kv.0 ++ (text "=" ++ format_value kv.1)

split_at-join :
    (part : Bytes) (parts : List Bytes)
    → All (Lacks b',') (part ∷ parts)
    → split_at b',' (join (text ",") (part ∷ parts)) ≡ part ∷ parts
unfolding join
split_at-join part [] h = split_at-last b',' part h.0
split_at-join part (q ∷ parts) h =
    split_at-part b',' part (join (text ",") (q ∷ parts)) h.0
    ∙ ap (◌∷◌ part) (split_at-join q parts h.1)

part_of-Lacks : (kv : Bytes × TagValue) → IsPlain kv → Lacks b',' (part_of kv)
part_of-Lacks (key, value) (h, k, l) =
    All-append (λ c. c ≢ b',') key (b'=' ∷ format_value value) h (ground arith, l)

parts-Lack : (tags : Tags) → All IsPlain tags → All (Lacks b',') (map part_of tags)
parts-Lack [] h = tt
parts-Lack (kv ∷ tags) h = (part_of-Lacks kv h.0, parts-Lack tags h.1)

-- A key that is not in a map goes behind its entries.
abbrev IsFresh : Tags → Bytes × TagValue → Type 0
IsFresh m kv = All (λ entry. bytes_eq entry.0 kv.0 ≡ false) m

insert_tag-fresh :
    (key : Bytes) (value : TagValue) (m : Tags)
    → All (λ entry. bytes_eq entry.0 key ≡ false) m
    → insert_tag key value m ≡ m ++ ((key, value) ∷ [])
unfolding insert_tag
insert_tag-fresh key value [] h = refl
insert_tag-fresh key value ((j, w) ∷ m) h =
    rw (h.0, insert_tag) (ap (◌∷◌ (j, w)) (insert_tag-fresh key value m h.1))

still-IsFresh :
    (key : Bytes) (value : TagValue) (m tags : Tags)
    → All (IsFresh m) tags
    → All (λ kv. bytes_eq key kv.0 ≡ false) tags
    → All (IsFresh (m ++ ((key, value) ∷ []))) tags
still-IsFresh key value m [] h k = tt
still-IsFresh key value m (kv ∷ tags) h k = (
  All-append (λ entry. bytes_eq entry.0 kv.0 ≡ false) m ((key, value) ∷ []) h.0 (k.0, tt),
  still-IsFresh key value m tags h.1 k.1,
)

read_tags-parts :
    (tags m : Tags)
    → All IsPlain tags
    → AreDistinct tags
    → All (IsFresh m) tags
    → read_tags (map part_of tags) m ≡ m ++ map as_text tags
unfolding read_tags
read_tags-parts [] m h d f = sym (append-nil m)
read_tags-parts ((key, value) ∷ tags) m h d f =
    let next : Tags = m ++ ((key, TagValue.str (format_value value)) ∷ []) in
    let fresh : insert_tag key (TagValue.str (format_value value)) m ≡ next =
      insert_tag-fresh key (TagValue.str (format_value value)) m f.0 in
    rw (cut_byte b'=' key (format_value value) h.0.1, read_tags)
      (rw fresh (
        read_tags-parts tags next h.1 d.1
          (still-IsFresh key (TagValue.str (format_value value)) m tags f.1 d.0)
        ∙ append_assoc m (as_text (key, value) ∷ []) (map as_text tags)))

written-ne :
    (kv : Bytes × TagValue) (tags : Tags) → bytes_eq (span_tags_to_string (kv ∷ tags)) [] ≡ false
unfolding span_tags_to_string join bytes_eq
written-ne ([], value) [] = refl
written-ne (c ∷ key, value) [] = refl
written-ne ([], value) (kv ∷ tags) = refl
written-ne (c ∷ key, value) (kv ∷ tags) = refl

none_before : (tags : Tags) → All (IsFresh []) tags
none_before [] = tt
none_before (kv ∷ tags) = (tt, none_before tags)

written_nothing : parse_span_tags (span_tags_to_string []) ≡ []
unfolding parse_span_tags span_tags_to_string join bytes_eq
written_nothing = refl

written_parts :
    (kv : Bytes × TagValue) (tags : Tags)
    → All IsPlain (kv ∷ tags)
    → split_at b',' (span_tags_to_string (kv ∷ tags)) ≡ map part_of (kv ∷ tags)
unfolding span_tags_to_string
written_parts kv tags h = split_at-join (part_of kv) (map part_of tags) (parts-Lack (kv ∷ tags) h)

-- Tags with distinct keys, whose keys have no comma and no equals sign and whose values have no
-- comma, come back from their column with every value as its text.
pub parse_span_tags-span_tags_to_string :
    (tags : Tags)
    → All IsPlain tags
    → AreDistinct tags
    → parse_span_tags (span_tags_to_string tags) ≡ map as_text tags
unfolding parse_span_tags
parse_span_tags-span_tags_to_string [] h d = written_nothing
parse_span_tags-span_tags_to_string (kv ∷ tags) h d =
    rw (written-ne kv tags, parse_span_tags)
      (ap (λ parts. read_tags parts []) (written_parts kv tags h)
        ∙ read_tags-parts (kv ∷ tags) [] h d (none_before (kv ∷ tags)))
