-- ===== src/Lib.antt =====
-- Pathwinder redirects the file operations of a Windows application. A filesystem rule names an
-- origin directory, a target directory, file patterns and a mode; what lies below the origin
-- directory and matches the patterns is looked for below the target directory, in its place (simple
-- mode) or before it (overlay mode). A filesystem director holds the rules. Asked about a path it
-- gives an instruction; hooked system calls hand the instruction to an executor, which carries it
-- out.
--
-- This library models the part that decides, from the rules to the instructions, and the part that
-- carries the instructions out, up to the calls of the system:
--
--   PrefixTree       Include/Pathwinder/Internal/PrefixTree.h: the tree that indexes the rules by
--                    their origin directories. A node is a tree of its own; a pointer to a node is a
--                    `Loc`, the node with the chain of ancestors that its parent pointers give.
--                    Each member function is a function of its name, in snake case. Lookup states
--                    what the tree is for its clients, a map from lists of components to data.
--   Rule             Include/Pathwinder/Internal/FilesystemRule.h and Source/FilesystemRule.cpp: one
--                    rule, the comparison of directories, and the redirection of a path.
--   RuleContainer    RelatedFilesystemRuleContainer of FilesystemRule.h: the rules with one origin
--                    directory, in the order in which they are tried.
--   Instruction      Include/Pathwinder/Internal/FilesystemInstruction.h and
--                    Source/FilesystemInstruction.cpp: the instructions as data.
--   Director         Include/Pathwinder/Internal/FilesystemDirector.h and
--                    Source/FilesystemDirector.cpp: its queries. Director/FileOperation is
--                    GetInstructionForFileOperation and Director/DirectoryEnumeration is
--                    GetInstructionForDirectoryEnumeration, each cut into the functions that its
--                    blocks amount to. The other files below Director prove their properties.
--   DirectorBuilder  Include/Pathwinder/Internal/FilesystemDirectorBuilder.h and
--                    Source/FilesystemDirectorBuilder.cpp: adding rules to a director, with the
--                    checks on names, patterns and directories.
--   OpenHandleStore  Include/Pathwinder/Internal/OpenHandleStore.h and Source/OpenHandleStore.cpp:
--                    what is kept of each open handle, shared by threads under a lock.
--   FileInformation  Include/Pathwinder/Internal/FileInformationStruct.h and
--                    Source/FileInformationStruct.cpp: the structures in the buffer of a directory
--                    enumeration, read and written in its bytes. FileInformation/Structures lays
--                    them out as a 64-bit compiler does.
--   BufferPool       Include/Pathwinder/Internal/BufferPool.h: the pool that the buffers of queues are
--                    taken from, with `new` giving numbers to the buffers that it makes.
--   Queue            Include/Pathwinder/Internal/DirectoryOperationQueue.h and
--                    Source/DirectoryOperationQueue.cpp: IDirectoryOperationQueue is the record
--                    DirectoryOperationQueue, what it promises is `Presents`, and each kind of queue
--                    is a file below Queue.
--   Executor         Source/FilesystemExecutor.cpp: a file below Executor for each function, or two
--                    that belong together. Executor/NewFileHandle, Executor/Rename, Executor/Query
--                    (QueryByObjectAttributes) and Executor/QueryByHandle take an instruction from a
--                    function of the hooks; Executor/Prepare makes the queues of an enumeration and
--                    Executor/Advance copies from them to the application. The handles that they
--                    open, rename and enumerate are kept in OpenHandleStore.
--   Windows          the status codes of Include/Pathwinder/Internal/ApiWindows.h and the create
--                    dispositions of NtCreateFile.
--   Strings          the functions on paths of Source/Strings.cpp.
--   Text             the members of std::wstring_view that these call.
--   Infra            what comes from outside the repository, as an interface: the functions of
--                    Infra::Strings (Modules/Infra), RtlIsNameInExpression, and the character tables
--                    of the C library, with the documented behaviour that the theorems use.
--                    Infra/Ascii fulfils the interface.
--   Base             lists, Booleans and numbers.
--   Examples         runs on small data, and an instance of each theorem.
--
-- A text is the list of its characters' codes, each a native number. A rule that a pointer names
-- stands for the pointer. `none` is a null pointer, npos or an absent value; where a function would
-- have no defined result, its model returns an Option that the comment above it explains.
-- Loops over lists are structural recursions and need no fuel. Those that go on as long as the system
-- gives more files (skipping in a queue, and in an enumeration) take fuel; `none` says that it ran
-- out. The theorems on them take any fuel above the number of structures that there are, so the
-- loops end. The index of a rule has 8 bits and wraps; a container has at most 64 rules. The
-- counters of modes in an enumeration do not overflow, as they count at most those 64 rules. The
-- lengths of a UNICODE_STRING have 16 bits and wrap, sizes and positions in a buffer 32, and the
-- count of an I/O status block 64. A status is an unsigned number of 32 bits.
-- FilesystemOperations::IsDirectory is a parameter, a function from paths to Booleans, and so are
-- CloseHandle, the resolver of references and the capacity of Infra::TemporaryVector. The other
-- functions of FilesystemOperations and the underlying system calls of the executor are functions on
-- a state of the system, which they may change. RenameByHandle reads a view of a local buffer after
-- the buffer is destroyed: what its memory holds by then is a parameter.
-- The children of a node are a hash map, whose order is not defined: the model keeps the order of
-- insertion. std::sort leaves open the order of equal elements: the model keeps it.
--
-- Not modelled: messages to the log and debug assertions; what runs after an asynchronous enumeration
-- was submitted to the thread pool; the hooks; the checks of a builder as it becomes a director and
-- its reading of a configuration; memory management other than the pool of buffers. These ask the
-- system, or work on types of Infra.
pub mod Base
pub mod Windows
pub mod Text
pub mod PrefixTree
pub mod Infra
pub mod Strings
pub mod Rule
pub mod RuleContainer
pub mod Instruction
pub mod Director
pub mod OpenHandleStore
pub mod BufferPool
pub mod FileInformation
pub mod Queue
pub mod Executor
pub mod DirectorBuilder
pub mod Examples
