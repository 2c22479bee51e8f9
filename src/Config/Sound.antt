-- ===== src/Config/Sound.antt =====
-- What MyConfig::Load of lib/util/pf_config.cpp has read if it reports no error.
use arbore_experiment.Base.{
  ℕ, ◌≡◌, true, false, ◌||◌, Option, none, some, List, [], ◌∷◌, ◌==◌, arith, inl, inr, Bool-cases,
}
use arbore_experiment.Netutil.{Str, to_nul}
use arbore_experiment.StrMap.{find, put}
use arbore_experiment.StrMap.Order.{put-All}
use arbore_experiment.Tools.{stringtok, skip_delimiters}
use arbore_experiment.Config.{
  Item, Section, Config, set_value, set_found, write, get_section, get_named, is_nothing, defaults,
  any_missing,
}
use arbore_experiment.Config.Items.{Filled, AllFilled, set_value-Filled, defaults-AllFilled}
use arbore_experiment.Config.Load.{
  section_at, copy_section, enter, Reader, failed, space, siblings, is_name_item, put_item,
  put_name, with_value, with_item, item_line, end_line, open_copy, enter_section, opened, all_lines,
  in_section, section_line, read_line, read_lines, closed, load_text, has_char, is_open,
}
use arbore_experiment.Config.Writes.{
  Holds, holds, Sound, bind-Holds, any-Holds, SoundIf, section_at-Holds, write-Sound,
  copy_section-Sound, enter-Sound,
}

-- A reader that has met no error has a sound configuration.
pub IsReader : Reader → Type 0
IsReader r = SoundIf r.error r.config

put_item-IsReader :
    (r : Reader) (i : ℕ) (s : Section) (label : Str) (item : Item) (value : Str)
    → IsReader r
    → (r.error ≡ false → AllFilled s.items)
    → IsReader (put_item r i s label item value)
unfolding IsReader put_item
put_item-IsReader r i s label item value h a ok =
    let no_error : r.error ≡ false = ground (arith, ok) in
    let accepted : (set_value (set_found item) value).1 ≡ true = ground (arith, ok) in
    write-Sound r.config i
      (record s { items = put label (set_value (set_found item) value).0 s.items }) (h no_error)
      (put-All (λ l i. Filled i) label (set_value (set_found item) value).0 s.items
        (set_value-Filled (set_found item) value accepted) (a no_error))

failed-IsReader : (r : Reader) → IsReader (failed r)
unfolding IsReader
failed-IsReader r ok = absurd cc

put_name-IsReader :
    (r : Reader) (i : ℕ) (s : Section) (label : Str) (item : Item) (value : Str) (o : Option ℕ)
    → IsReader r
    → (r.error ≡ false → AllFilled s.items)
    → IsReader (put_name r i s label item value o)
unfolding put_name
put_name-IsReader r i s label item value (some j) h a = failed-IsReader r
put_name-IsReader r i s label item value none h a =
    put_item-IsReader r i (record s { name = value }) label item value h a

with_item-IsReader :
    (r : Reader) (i : ℕ) (s : Section) (label rest : Str) (o : Option Item)
    → IsReader r
    → (r.error ≡ false → AllFilled s.items)
    → Holds IsReader (with_item r i s label rest o)
unfolding with_item with_value
with_item-IsReader r i s label rest none h a = holds (failed-IsReader r)
with_item-IsReader r i s label rest (some item) h a =
    let value = skip_delimiters (b' ' ∷ b'=' ∷ b'\t' ∷ []) rest in
    elim (Bool-cases (is_nothing value)) [
      | inl nothing ↦ rw nothing (holds (failed-IsReader r))
      | inr something ↦ elim (Bool-cases (is_name_item s.name_item label)) [
        | inl named ↦
            rw (something, named)
              (any-Holds (siblings r.config s.parent) _ (λ ss. holds (
                put_name-IsReader r i s label item value (get_named r.config ss s.label value) h
                  a)))
        | inr other ↦ rw (something, other) (holds (put_item-IsReader r i s label item value h a))
      ]
    ]

item_line-IsReader :
    (r : Reader) (o : Option ℕ) (line : Str) → IsReader r → Holds IsReader (item_line r o line)
unfolding item_line IsReader
item_line-IsReader r none line h = holds (failed-IsReader r)
item_line-IsReader r (some i) line h =
    bind-Holds (section_at r.config i) _ (section_at-Holds r.error r.config i h) (λ s a.
      let token = stringtok space line in
      with_item-IsReader r i s token.0 token.1 (find s.items token.0) h a)

end_line-IsReader : (r : Reader) (o : Option ℕ) → IsReader r → Holds IsReader (end_line r o)
unfolding end_line IsReader
end_line-IsReader r none h = holds (failed-IsReader r)
end_line-IsReader r (some i) h =
    bind-Holds (section_at r.config i) _ (section_at-Holds r.error r.config i h) (λ s a.
      holds (λ ok.
        let no_error : r.error ≡ false = ground (arith, ok) in
        write-Sound r.config i (record s { items = (defaults s.items).0 }) (h no_error)
          (defaults-AllFilled s.items (a no_error))))

open_copy-IsReader :
    (r : Reader) (i : ℕ) (s : Section) → IsReader r → Holds IsReader (open_copy r i s)
unfolding open_copy IsReader
open_copy-IsReader r i s h =
    bind-Holds (copy_section r.config.next r.config i) _
      (copy_section-Sound r.config.next r.error r.config i h)
      (λ (c, n) h'. bind-Holds (section_at c n) _ (section_at-Holds r.error c n h') (λ t a.
        let c' = write c n (record t { copy = true }) in
        bind-Holds (enter c' s.parent s.label n) _
          (enter-Sound r.error c' s.parent s.label n
            (λ ok. write-Sound c n (record t { copy = true }) (h' ok) (a ok)))
          (λ c2 sound. holds sound)))

enter_section-IsReader :
    (r : Reader) (i : ℕ) (s : Section) → IsReader r → Holds IsReader (enter_section r i s)
unfolding enter_section IsReader
enter_section-IsReader r i s h = elim (Bool-cases s.multiple) [
  | inl many ↦ rw many (open_copy-IsReader r i s h)
  | inr one ↦ rw one (holds h)
]

opened-IsReader : (r : Reader) (o : Option ℕ) → IsReader r → Holds IsReader (opened r o)
unfolding opened IsReader
opened-IsReader r none h = holds (λ ok. absurd cc)
opened-IsReader r (some i) h =
    bind-Holds (section_at r.config i) _ (section_at-Holds r.error r.config i h) (λ s a.
      let s' = record s { found = true } in
      enter_section-IsReader (record r { config = write r.config i s' }) i s'
        (λ ok. write-Sound r.config i s' (h ok) (a ok)))

section_line-IsReader :
    (r : Reader) (line : Str) → IsReader r → Holds IsReader (section_line r line)
unfolding section_line
section_line-IsReader r line h =
    any-Holds (in_section r.config r.section) _
      (λ ss. opened-IsReader r (get_section r.config ss (stringtok space line).0) h)

read_line-IsReader : (r : Reader) (line : Str) → IsReader r → Holds IsReader (read_line r line)
unfolding read_line
read_line-IsReader r [] h = holds h
read_line-IsReader r (c ∷ cs) h = elim (Bool-cases (c == b'#' || c == b'\r' || c == b'\n')) [
  | inl comment ↦ rw comment (holds h)
  | inr plain ↦ elim (Bool-cases (has_char b'=' (c ∷ cs))) [
    | inl item ↦ rw (plain, item) (item_line-IsReader r r.section (c ∷ cs) h)
    | inr other ↦ elim (Bool-cases (c == b'}')) [
      | inl end ↦ rw (plain, other, end) (end_line-IsReader r r.section h)
      | inr opens ↦ rw (plain, other, opens) (section_line-IsReader r (c ∷ cs) h)
    ]
  ]
]

read_lines-IsReader : (ls : List Str) (r : Reader) → IsReader r → Holds IsReader (read_lines r ls)
unfolding read_lines
read_lines-IsReader [] r h = holds h
read_lines-IsReader (l ∷ ls) r h =
    let line = skip_delimiters (b' ' ∷ b'\t' ∷ []) (to_nul l) in
    bind-Holds (read_line r line) _ (read_line-IsReader r line h)
      (λ r' h'. read_lines-IsReader ls r' h')

-- If every item that counts as found has a value of its kind before Load, then after a Load of any
-- text that returns true each item that was found in the text has one: a number in the range of
-- the item and of an int, a flag, or a text.
pub load_text-Sound :
    (c : Config) (text : Str)
    → Sound c
    → Holds (λ (c', ok). ok ≡ true → Sound c') (load_text c (some text))
unfolding load_text closed IsReader Sound
load_text-Sound c text h =
    let r : Reader = record { config = c; section = none; error = false } in
    bind-Holds (read_lines r (all_lines [] text)) _
      (read_lines-IsReader (all_lines [] text) r (λ ok. h)) (λ r' h'. holds (end r' h'))
  where
    end : (r' : Reader) → IsReader r' → (closed r').1 ≡ true → Sound (closed r').0
    end r' h' ok =
        let error = r'.error || is_open r'.section || any_missing r'.config r'.config.sections in
        elim (Bool-cases error) [
          | inl wrong ↦ let refused : false ≡ true = rw wrong at ok in absurd cc
          | inr right ↦ rw right (h' (ground (arith, right)))
        ]
