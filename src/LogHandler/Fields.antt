-- ===== src/LogHandler/Fields.antt =====
-- log-handler.go: the attributes of a handler and those of its records.
use bugfree_go_sdk.Base.{
  Map, Text, [], ap, false, insert, is_empty, refl, sym, ℕ, ◌++◌, ◌∙◌, ◌∷◌, ◌≡◌,
}
use bugfree_go_sdk.LogHandler.{
  Attrs, Field, LogHandler, attr, attrs_append, fields, flatten_attr, flatten_attrs, group,
  join_key, no_attrs, prefix_attrs, prefix_each, single, with_attrs,
}

-- Attributes with a key, or with a group for a value.
abbrev pub Keyed : Attrs → Type 0
Keyed no_attrs = Unit
Keyed (attr key (group inner) list) = Keyed list
Keyed (attr key (single value) list) = (is_empty key ≡ false) × Keyed list

flatten_attrs-append :
    (m : Map Field) (prefix : Text) (list bs : Attrs)
    → flatten_attrs m prefix (attrs_append list bs)
      ≡ flatten_attrs (flatten_attrs m prefix list) prefix bs
unfolding flatten_attrs
flatten_attrs-append m prefix no_attrs bs = refl
flatten_attrs-append m prefix (attr key value list) bs =
    flatten_attrs-append (flatten_attr m prefix key value) prefix list bs

-- A key joined before is the same key under the prefix.
flatten_attrs-prefix_each :
    (m : Map Field) (c : ℕ) (prefix : Text) (list : Attrs)
    → Keyed list
    → flatten_attrs m [] (prefix_each (c ∷ prefix) list) ≡ flatten_attrs m (c ∷ prefix) list
unfolding flatten_attrs flatten_attr join_key is_empty
flatten_attrs-prefix_each m c prefix no_attrs h = refl
flatten_attrs-prefix_each m c prefix (attr [] (group inner) list) h =
    flatten_attrs-prefix_each (flatten_attrs m (c ∷ prefix) inner) c prefix list h
flatten_attrs-prefix_each m c prefix (attr (k ∷ key) (group inner) list) h =
    flatten_attrs-prefix_each (flatten_attrs m (c ∷ (prefix ++ b'.' ∷ k ∷ key)) inner) c prefix list
      h
flatten_attrs-prefix_each m c prefix (attr [] (single value) list) (h, hs) = cc
flatten_attrs-prefix_each m c prefix (attr (k ∷ key) (single value) list) (h, hs) =
    flatten_attrs-prefix_each (insert (c ∷ (prefix ++ b'.' ∷ k ∷ key)) value m) c prefix list hs

flatten_attrs-prefix_attrs :
    (m : Map Field) (prefix : Text) (list : Attrs)
    → Keyed list
    → flatten_attrs m [] (prefix_attrs prefix list) ≡ flatten_attrs m prefix list
unfolding prefix_attrs is_empty
flatten_attrs-prefix_attrs m [] list h = refl
flatten_attrs-prefix_attrs m (c ∷ prefix) list h = flatten_attrs-prefix_each m c prefix list h

-- Attributes given to the handler are reported as if the record itself carried them first: under
-- the same keys, with the groups that were open, and with the same winner where keys meet. This
-- holds for attributes that have a key or hold a group.
pub fields-with_attrs :
    (h : LogHandler) (list record_attrs : Attrs)
    → Keyed list
    → fields (with_attrs h list) record_attrs ≡ fields h (attrs_append list record_attrs)
unfolding fields with_attrs
fields-with_attrs h list rest k =
    let own = flatten_attrs [] [] h.attrs in
    ap (λ (m : Map Field). flatten_attrs m h.prefix rest)
      (flatten_attrs-append [] [] h.attrs (prefix_attrs h.prefix list)
        ∙ flatten_attrs-prefix_attrs own h.prefix list k)
    ∙ sym (flatten_attrs-append own h.prefix list rest)

flatten_attrs_keyless :
    (m : Map Field) (prefix : Text) (value : Field)
    → is_empty prefix ≡ false
    → flatten_attrs m [] (prefix_attrs prefix (attr [] (single value) no_attrs))
      ≡ insert prefix value m
unfolding prefix_attrs join_key flatten_attrs flatten_attr is_empty
flatten_attrs_keyless m [] value h = cc
flatten_attrs_keyless m (c ∷ prefix) value h = refl

-- An attribute without a key is dropped when a record carries it, but given to a handler inside a
-- group it is reported under the group's name.
pub fields_keyless :
    (h : LogHandler) (value : Field)
    → is_empty h.prefix ≡ false
    → (fields h (attr [] (single value) no_attrs) ≡ fields h no_attrs)
      × (fields (with_attrs h (attr [] (single value) no_attrs)) no_attrs
          ≡ insert h.prefix value (fields h no_attrs))
unfolding fields with_attrs flatten_attrs flatten_attr is_empty
fields_keyless h value grouped = (
  refl,
  flatten_attrs-append [] [] h.attrs (prefix_attrs h.prefix (attr [] (single value) no_attrs))
      ∙ flatten_attrs_keyless (flatten_attrs [] [] h.attrs) h.prefix value grouped,
)
