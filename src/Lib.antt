-- ===== src/Lib.antt =====
-- A model of the crate vec64: 64-byte aligned vectors, the allocators behind them, and the concurrent
-- append-only vector. `Vec64<T>` is a `Vec<T, A>` over one of two allocators, `Alloc64` (the heap) and,
-- with the feature `mmap` on Linux, `MAllocPg64` (the heap for small sizes, mapped pages for large
-- ones). The build script chooses `HUGE_PAGE`, the size from which blocks are mapped.
--
-- The parts and their files:
--   Build          build.rs: `main`, the parsing and the checks of `HUGE_PAGE`; `Config` is what a build
--                  fixes, the constant and the features
--   PageSize       src/mmap_alloc.rs: `uses_mmap`, `mapped_size`, `uses_giant_pages`
--   PageAligned    src/page_aligned.rs: the trait `PageAligned` and its helpers; `Gcd` is its `gcd`
--   Machine        the system allocator and the kernel, as a parameter `Sys` with the laws `IsSys`
--                  (`Effect`), which state what std::alloc, mmap, munmap, mremap and madvise document;
--                  `Toy` is an instance, for examples (`Toy.Places`, `Toy.Laws`),
--                  and `Toy.Tearing` one that is not `KeepsTarget`
--   Allocator      the contract of the trait `Allocator`, as records of what a caller may rely on
--   Alloc64        src/alloc64.rs: the allocator `Alloc64`; `Heap` and `Replace` are about heap
--                  blocks and the copying `grow_zeroed`, `Correct` about the contract
--   MmapAlloc      src/mmap_alloc.rs: the allocator `MAllocPg64`; `Hybrid` how it holds a block, `Mapping`
--                  and `Fresh` allocation and release, `Relocate`, `Remap` and `Grow` the ways a
--                  block moves, `Correct` the growing operations and `Shrink`, with `Tail` and `Fewer`, the other
--   Global         src/global.rs: `MAllocPg64Global`, and in `Heap64` `Alloc64Global`; `Agree` compares
--                  their answers with those of the allocators above
--   Vec64          src/vec64.rs: `Raw` is a vector as a pointer, a length and a capacity, and the operations
--                  of `Vec` that the source calls; `Held` how a vector holds its block
--     New          the ways to make a vector; `Fresh` the blocks, `Correct`, `Slice` and `Bytes` the vectors
--     Splice       `delete_range` and `try_mremap_splice`, in the three steps of the source; `Kept`
--                  memories that differ in a range, `Pages` where the pages lie, `Copies`
--                  and `Moves` the three steps under every answer of the kernel, `Shift` all of the tail, `Deletes` and
--                  `Correct` the deletion
--     Append       `extend_from_vec64` and `try_mremap_append`; `Free` giving back a buffer, `Elements`
--                  the move of elements, `Pages` and `Tried` that of pages, `Correct` both, `Absorb` where the vector grows,
--                  `Aligned` what `PageAligned` says of the pages that are taken over
--     Chunks       `from_chunks`; `Contents` vectors as lists of bytes, `Apart` chunks that an append
--                  leaves alone, `Joined` the whole
--     Split        `split_off`; `Rejoin` undoes it
--     Items        vectors made and extended item by item: `Extend`, `FromIterator`, `From<&[T]>`, `Clone`, `PartialEq`,
--                  `io::Write` and the general forms of `vec64!`; `Extends` what a vector becomes, `Put` and `Pushed`
--                  one item and many, `Slices` the items of a slice, `Collecting` and `Collected` new vectors, `Cloned` equality
--     Growth       a `Vec::reserve` over the two allocators, as an instance of the parameter that `Items` takes; `Kept`
--                  what `grow` keeps, `Reserve` the promise
--     Convert      `From<Vec<T>>`, `IntoIterator` and `AsRef`; `Taken` a vector of the standard library
--                  taken over, `Rebuilt` a vector collected from its own iterator
--     Display      `Display`, over any sink; `Printed` what is printed
--     Packed, Fill both forms of the macro `vec64!` for Booleans
--     Samples      vectors for the examples
--   AppendOnlyVec  src/append_only_vec.rs: the vector and its readers; `Push` the concurrent `push`,
--                  one atomic access to a step, by any number of writers; `Invariant`, `Moves` and
--                  `Concurrent` what holds under every interleaving; `Exclusive` a lone `push`,
--                  which `Solo` compares with the step relation; `Iterate` the iterators and the drop;
--                  `Settle` a run that publishes all that is claimed, `Log` the list that it implements
--   WasmTest       wasm-test/src/lib.rs: the two sums of the smoke test, with rayon's `sum` and the memory of the heap as parameters (`Sums`)
--   Base           shared names, and lemmas on lists, bits, tests and `usize` arithmetic
--
-- A `usize` is a natural number below 2 ^ 64, and every operation on one wraps where it is written out
-- (`Base.Usize`). Memory is a function from addresses to bytes, together with what each address belongs
-- to and the layouts of the live heap blocks. A call of an allocator is a function from the memory to a
-- result and a memory; `none` is a panic, and the inner `none` is `AllocError`. In AppendOnlyVec an
-- uninitialised slot is `none`, and a read of one is the outcome `undefined`. A relaxed or acquire load
-- may return any earlier value of its counter; the acquire on `published` orders a reader after the
-- writes that it has seen published. The one loop on fuel is `collect`, which stands for a client of the
-- iterator; its theorem gives a sufficient bound. `gcd` recurses on the accessibility of `<`.
--
-- The laws of the kernel (`Machine.Effect.IsSys`) say nothing of an `mremap` with a fixed destination that fails. The
-- theorems on `delete_range` and on appending take as a hypothesis of their own that such a failure has left the destination
-- as it was (`KeepsTarget`), since the fallbacks of the source write to it. A failed `mremap` that may move has changed nothing;
-- the destructors of elements return; `Vec::reserve` is a parameter that does nothing where there is
-- room, and for `Items` one that keeps the elements where it makes room (`Pushed.IsReserve`); the
-- address of a vector without a buffer is a parameter. A failed allocation, which ends the process, is
-- a panic in `Vec64`.
--
-- In `Items` an element is the list of its bytes, and a clone of one is a function of those bytes. In
-- `Display` a text is a list of bytes; what `write_str` of the sink and the `Display` of an element do are
-- parameters. In WasmTest a `usize` has 32 bits, whether the heap grants a size is a parameter, and overflow checks may be on or off.
--
-- Not modelled: `Default`, which is `new`, and the trait implementations of `Vec64` that only pass a reference on
-- to `Vec` (`Deref`, `Borrow`, `AsMut`, `IntoIterator` by reference, `Debug` and the conversions between `Vec64`
-- and the `Vec` inside); the drop of an iterator; the allocator of the source of `From<Vec<T>>`, whose release is a
-- parameter of `Convert`; the operations of `Vec` itself beyond
-- `Raw` and `Items`; logging and formatting of errors; the thread-parallel extensions, which only call rayon.
pub mod Base
pub mod Build
pub mod PageSize
pub mod PageAligned
pub mod Machine
pub mod Allocator
pub mod Alloc64
pub mod MmapAlloc
pub mod Global
pub mod Vec64
pub mod WasmTest
pub mod AppendOnlyVec
