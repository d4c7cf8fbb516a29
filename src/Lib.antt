-- ===== src/Lib.antt =====
-- A model of parts of OpenAxiom that are written in C, with proofs about it.
--
-- The command line editor clef (Clef.antt and the files below it) is the largest part. The process
-- reads characters from the terminal into in_buff, do_reading (src/lib/edin.c) acts on each of
-- them, and a finished line is written to the child process. State is the globals of
-- src/include/edible.h, as one record, Editor, that the operations take and give back:
--   Clef/Key            the names of characters (src/include/edible.h)
--   Clef/State          the globals and the primitive effects: putchar, write to the child
--   Clef/Print          cursor moves, deletions and their echo (src/lib/prt.c)
--   Clef/Insert         insert_buff_printing, insert_buff_nonprinting (src/lib/edin.c)
--   Clef/Ring           insert_queue, prev_buff, next_buff (src/lib/edin.c)
--   Clef/Lines          convert_buffer, send_line_to_child and its kin (src/lib/edin.c)
--   Clef/Completion     the tables of words, and in Clef/Completion/Edits the completions
--                       (src/lib/wct.c)
--   Clef/FunctionKeys   handle_function_key (src/lib/fnct_key.c)
--   Clef/Reader         do_reading (src/lib/edin.c)
-- The functions keep their names; those of src/lib/wct.c are written in lower case with
-- underscores (rescanWct is rescan_wct_table, since rescan_wct is another function).
--
-- Arrays are functions of the index (Prelude/Memory). A write behind the end of an array, and a
-- position that would fall below 0, set the field fault, and from there on the model does not
-- follow the source. The system shows itself in parameters: the input as a list, the files of
-- words and the editor program as functions. The loops that the buffers bound take the 1024 cells
-- as fuel, and running over them is a fault; those that count down are structural. do_reading
-- takes fuel for its rounds, and says fault where that is short.
--
-- What is proved of the editor stands below Clef/Line, against an abstract line: a list of glyphs
-- before the cursor and a list behind it, where a glyph is an ordinary character or a control
-- character, which takes two cells of the buffer (Clef/Line/Glyph, relation Rep). Clef/Line/Screen
-- has a model of the row of the terminal and what it is for it to show an abstract line (relation
-- Shows). Clef/Line/Reading is about the loop, Clef/Line/Recall and the files below Clef/Ring about
-- the ring, Clef/Completion/Words, Search, Rescan and Order about the tables.
--
-- The other parts:
--   Hash                the hash table of src/lib/hash.c. Its two functions are an instance
--                       argument, Hashing, with the laws that the table relies on; Hash/Strings
--                       fills it for strings. A table of no buckets, which divides by 0, is left
--                       out by a hypothesis where it matters.
--   Hyper/Groups        the group stack of HyperDoc (src/hyper/group.c); fonts, colours and
--                       change_text are parameters and a list of calls
--   Hyper/Items         the item stack of HyperDoc (src/hyper/item.c)
--   Hyper/Chains        the loops that copy the group and the item stack, on nodes in the memory,
--                       with one unit of fuel for each node behind the first
--   Hyper/Dialog        the editor of the input areas of HyperDoc pages (src/hyper/dialog.c), with
--                       alloc_inputline (src/hyper/mem.c) and initialize_default
--                       (src/hyper/parse-input.c). The doubly linked lines of an item are the
--                       current line with the lines before and behind it; a read through NULL gives
--                       no result. strncpy between overlapping ranges is taken to go up. Drawing is
--                       left out. Below Hyper/Dialog/View the lines are read as the text before the
--                       cursor and the text behind it, where a line that is longer than the area is
--                       wide goes on in the next
--   Hyper/Input         the focus, the areas and the radio boxes of a page (src/hyper/input.c)
--   Hyper/Lex           the scanner of pages (src/hyper/lex.c) on a file, a string or a pipe, with
--                       the tables of the window as functions; Hyper/Lex/Keywords enters the
--                       keywords in the hash table of Hash. A longjmp, a write behind the buffer
--                       and a lack of fuel are outcomes. The count of blanks is a char of eight
--                       bits. Each call of get_token takes a unit of the fuel and its loops the
--                       rest. Hyper/Lex/States has the stack of scanner states, where a file is
--                       its text; HTASCII is read once
--   Hyper/Macros        the arguments and the parameters of macros, and how a macro is read from
--                       its file (src/hyper/macro.c), with the scanner of Hyper/Lex. An int has 32
--                       bits, and what C leaves open is a fault. Each character of an argument
--                       takes a unit of the fuel
--   Hyper/Verbatim      the text of verbatim blocks (src/hyper/parse-types.c), which is read by
--                       get_char; one unit of fuel for each character
--   Sort                the merge sort of src/graph/view3D/msort3d.c and its call in
--                       src/graph/view3D/surface3d.c; following NULL, and too little fuel, give no
--                       result. The fuel is the length of the range, and one more
--
-- Not modelled: what only calls the system or X11, floating point drawing, the parser of HyperDoc
-- pages, sockets as its input, the session manager, and the parts written in Lisp, Boot, Spad and
-- C++. The parser of pages is a parameter of parse_from_string. Characters are natural
-- numbers, and int does not overflow in the lengths that occur.
pub mod Clef
pub mod Hash
pub mod Hyper
pub mod Prelude
pub mod Sort
