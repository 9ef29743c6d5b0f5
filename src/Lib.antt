-- ===== src/Lib.antt =====
-- domq: the Python code of the DOMQ message queue's repository.
--
-- DOMQ's servers and libraries are C++. Its Python code has two parts, and this development is about
-- what they compute.
--
-- * The client side of the wire protocol, framework/test/test_connectionmgr. A client makes a message
--   object, a translator writes it as a frame of bytes with the class name that the factory knows,
--   and a connection sends the frame and reads the answer, of which it knows the length only when it
--   has read the first four bytes.
--     Wire         the formats of `struct` that translator.py and network.py use.
--     Factory      msgfactory.py: `create`, `register`, `getClassName` on the two tables, which are
--                  association lists (Prelude/Dict). Registry has the proofs.
--     Translator   translator.py: `encode` and `decode` of ProtocolTranslator and JsonTranslator, and
--                  `encode` of StandTranslator. What protobuf or a JSON class does with a body is a
--                  `Codec`, which every definition takes. Frame, RoundTrip and Errors have the proofs.
--     Network      network.py: `recvn`, `sendAndRecv` and `sendAndRecvMsg`, and the loop of requests
--                  that the scripts in mq/test/test_server run (`run_requests`). A `Socket` says in
--                  which pieces the peer's bytes come and how much `send` takes. Session has the life
--                  of a connection. Receive, Exchange and Returned have the proofs.
--     Messages     msg.py and addmsg.py: the attributes of a message, most of which are those of the
--                  protobuf object that it keeps, for what `getattr` and `__setattr__` of it do; and those
--                  of the queue's results in msgqueuemsg.py.
--     Clients      mq/test/test_server: the numbered requests of msgqueuemsg.py, and the loops of
--                  test_put.py and test_get.py, for what an exchange of the connection does, with the
--                  report of a failed exchange. Serials has the proofs.
-- * The tools that prepare a release of the JSON library, framework/jsoncpp.
--     Antglob      devtools/antglob.py: `ant_pattern_to_re` (Pattern), with `re.match` on the regular
--                  expressions that it makes, and `glob` (Walk) on a directory tree.
--     Fixeol       devtools/fixeol.py: `fix_source_eol` on the file at one path.
--     Tarball      devtools/tarball.py: `make_tarball`, whose archive is the list of its members.
--     JsonTests    test/runjsontests.py: `compareOutputs` (JsonTests) and `runAllTests` (Outcome), for
--                  what each run of the reader shows.
--                  Scripts has generate_expected.py and cleantests.py.
--     ValueTree    test/pyjsontestrunner.py: `valueTreeToString` on a value, and the program (Program) on
--                  a store of files, for what the `json` module gives. Heads, Paths, Shown, Distinct and
--                  Unique have the proofs that the text of a tree can be read back. A float is its bits
--                  with the text that `%.16g` makes of it.
--     UnitTests    test/rununittests.py: `TestProxy.run` and `runAllTests`.
--     Release      makerelease.py: `main` as the list of steps that it takes in an `Environment`, which
--                  says which steps fail, the commands behind the steps (Commands), the uploads (Sftp),
--                  and `fix_sources_eol` (Sources) on a store of files.
--     SconsTime    scons-time.py, which times runs of the build tool and shows what was measured: the
--                  graph (Plot), the names of files and the numbers of runs (Names), what is read from
--                  the files with its tables and lines (Results), how a command is written, shown and
--                  executed (Commands) and the commands of a run (Commands/Run), the options (Options)
--                  and the subcommands (Subcommands, and Dispatch for `do_run` and the program). What
--                  getopt, glob, the profiler and the file system give is a `Files` (World) or a
--                  `World` (Commands/Run). A run is the list of what is shown and done. Unpack has the
--                  functions for archives, trees and temporary directories.
--     Sconsign     sconsign.py: the fields of a node, the entries of the files (Files) and the options
--                  (Options), for what the database modules and pickle read; and the choice and the import
--                  of a database module (Modules).
--     Doxygen      doxybuild.py: the search for programs, the configuration of doxygen and its run, and
--                  `build_doc` as the list of its steps.
--     SearchPath   the header of scons.py and sconsign.py, which sets the search path for the library.
--     BuildTools   scons-tools: the substitution of substinfile.py, `Glob` of globtool.py and `targz`
--                  of targz.py.
--   The proofs are in the modules below them.
-- Prelude holds the shared lemmas and the `Result` type: a value, an exception of Python, or
-- `diverge` for a loop that does not end. Strings has Python's texts of numbers, `split` and
-- `os.path`, as far as several programs use them. Runs has the theorems at concrete inputs, and tests.
--
-- Bytes and characters are natural numbers. A number that is packed in four bytes keeps its bound, 32
-- bits, and a longer one is the error that `struct` raises. A measured value of scons-time.py is a whole
-- number, which a time is cut to. Loops run on fuel. `recvn n` has n rounds: each reads a byte or finds
-- that the connection is closed, and then no later round reads one. `finditer` has a round for each
-- character and one more, and the walk of `glob` one for each entry of the tree and one more; the
-- slices of an upload have one for each path and one more. `str n` has n rounds and one more, and
-- `increment_size` as many as the number that it takes digits off; `my_import` has one for each
-- character of the name and one more. Theorems show that these are enough.
--
-- Not modelled: printing, clocks and the parsing of command lines; opening and closing files; generated
-- protobuf classes; srcdist.py; the builders and emitters that the tools register with SCons, and the
-- SCons library; the C++ code.
pub mod Prelude
pub mod Wire
pub mod Factory
pub mod Translator
pub mod Network
pub mod Strings
pub mod Clients
pub mod Antglob
pub mod Fixeol
pub mod Tarball
pub mod JsonTests
pub mod Messages
pub mod SconsTime
pub mod Doxygen
pub mod Sconsign
pub mod SearchPath
pub mod BuildTools
pub mod UnitTests
pub mod ValueTree
pub mod Release
pub mod Runs
