-- ===== src/Workfile/Joined.antt =====
-- The layout of a work file: printed items with a separator line between them.
use worker_ng.Base.{
  ◌≡◌, refl, ap, true, false, List, [], ◌∷◌, ◌++◌, append-nil, append_assoc, All, concat, init,
  last, map,
}
use worker_ng.Text.{Text, newline, text_eq, strip, lines}
use worker_ng.Text.Lines.{Lacks, concat-lines, lines-append_newline, lines_of_line}
use worker_ng.Workfile.{parse_loop, print}

-- A separator that the parser recognises on a line of its own.
pub record IsSeparator (sep : Text) : Type 0 where
  pub one_line : Lacks newline sep
  pub recognised : text_eq (strip (print sep)) sep ≡ true

-- No line of the text reads as a separator.
abbrev pub HasNoSeparator : Text → Text → Type 0
HasNoSeparator sep s = All (λ l. text_eq (strip l) sep ≡ false) (lines s)

-- The file for a first printed text and the further ones.
abbrev pub joined : Text → Text → List Text → Text
joined sep b [] = print b
joined sep b (c ∷ bs) = print b ++ (print sep ++ joined sep c bs)

parse_loop-nil :
    (sep workitem : Text) → parse_loop sep workitem [] ≡ record { yields = []; returned = workitem }
unfolding parse_loop
parse_loop-nil sep workitem = refl

parse_loop-append :
    (sep workitem : Text) (ls ms : List Text)
    → All (λ l. text_eq (strip l) sep ≡ false) ls
    → parse_loop sep workitem (ls ++ ms) ≡ parse_loop sep (workitem ++ concat ls) ms
unfolding parse_loop
parse_loop-append sep workitem [] ms h = rw append-nil
parse_loop-append sep workitem (l ∷ ls) ms (h, hs) =
    rw (h, parse_loop-append sep (workitem ++ l) ls ms hs, append_assoc)

parse_loop-separator :
    {sep : Text} (workitem : Text) (ms : List Text)
    → IsSeparator sep
    → parse_loop sep workitem (print sep ∷ ms) ≡ record {
      yields = workitem ∷ (parse_loop sep [] ms).yields;
      returned = (parse_loop sep [] ms).returned;
    }
unfolding parse_loop
parse_loop-separator workitem ms h = rw h.recognised

-- A printed text is added to the item as a whole.
parse_loop-print :
    (sep b t : Text)
    → HasNoSeparator sep (print b)
    → parse_loop sep [] (lines (print b ++ t)) ≡ parse_loop sep (print b) (lines t)
parse_loop-print sep b t h =
    rw (lines-append_newline b t, parse_loop-append sep [] (lines (print b)) (lines t) h)
      (ap (λ w. parse_loop sep w (lines t)) (concat-lines (print b)))

parse_loop-print_separator :
    {sep : Text} (workitem t : Text)
    → IsSeparator sep
    → parse_loop sep workitem (lines (print sep ++ t)) ≡ record {
      yields = workitem ∷ (parse_loop sep [] (lines t)).yields;
      returned = (parse_loop sep [] (lines t)).returned;
    }
parse_loop-print_separator {sep} workitem t h =
    rw (lines-append_newline sep t, lines_of_line sep h.one_line)
      (parse_loop-separator workitem (lines t) h)

parse_loop_of_last :
    (sep b : Text)
    → HasNoSeparator sep (print b)
    → parse_loop sep [] (lines (print b)) ≡ record { yields = []; returned = print b }
parse_loop_of_last sep b h =
    rw
      (
        ← append-nil (lines (print b)),
        parse_loop-append sep [] (lines (print b)) [] h,
        concat-lines,
      )
      (parse_loop-nil sep (print b))

-- The parser on a file of joined items yields all but the last item, and returns that one.
pub parse_loop-joined :
    {sep : Text} (b : Text) (bs : List Text)
    → IsSeparator sep
    → All (HasNoSeparator sep) (map print (b ∷ bs))
    → parse_loop sep [] (lines (joined sep b bs))
      ≡ record { yields = init (map print (b ∷ bs)); returned = last (print b) (map print bs) }
parse_loop-joined {sep} b [] h (hb, _) = parse_loop_of_last sep b hb
parse_loop-joined {sep} b (c ∷ bs) h (hb, hs) =
    rw (parse_loop-print sep b _ hb, parse_loop-print_separator (print b) _ h)
      (rw (parse_loop-joined c bs h hs))
