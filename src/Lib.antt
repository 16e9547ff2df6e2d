-- ===== src/Lib.antt =====
-- Models and theorems for peli, a video loader in C++: a reader that seeks and decodes the frames
-- of a file, samplers that say which frames of which files come next, and the runtime below them.
--
-- The parts and how they meet:
-- - Reader (src/video/video_reader.cc, src/video/video_reader.h): `VideoReader`. State has its fields
--   (`Reader`), the part of `NDArray` that it looks at (`Frame`) and `Backend`, the interface of what
--   it calls: `av_read_frame` and `av_seek_frame` of FFmpeg and the virtual functions of
--   src/video/threaded_decoder_interface.h. Keyframes has `GetFrameCount`, `FrameToPTS`,
--   `FramesToPTS` and `LocateKeyframe`; Decode has `PushNext`, `CacheFrame`, `FetchCachedFrame`,
--   `CheckKeyFrame` and `SkipFramesImpl`; Seek has `Seek`, `SeekAccurate`, `SkipFrames`,
--   `NextFrameImpl` and `NextFrame`; Batch has `GetBatch`, on a buffer of bytes with the views of
--   src/runtime/ndarray.cc; Index has `IndexKeyframes`. Stream states the laws of the demuxer and the
--   decoder on a file without damage and proves, in its children, what the reader does on one; Held
--   is about a keyframe that `SeekAccurate` holds back, Tolerance about the frames that the cached
--   one stands in for.
-- - Sampler: Batches has what the sequential and the random sampler share, Ordered the two of them
--   (src/sampler/sequential_sampler.cc, src/sampler/random_sampler.cc), FileOrder the third
--   (src/sampler/random_file_order_sampler.cc), Compare sets them side by side. A shuffle is any
--   permutation.
-- - Loader (src/video/video_loader.cc): `VideoLoader` over `Sampler`, one of the three samplers
--   (src/sampler/sampler_interface.h), and `Readers`, the interface of its readers. Serve is about
--   what `Next`, `NextData` and `NextIndices` hand out.
-- - Workspace (src/runtime/workspace_pool.cc, src/runtime/workspace_pool.h): the pool of temporary
--   blocks of each device. `Device` is the interface of include/peli/runtime/device_api.h, with the
--   laws of an allocator: a new block is not null and not live, and a call changes no other block.
--   Children: Fit and Held on the two lists, Invariant and Alloc, Reuse, Release on one pool,
--   Devices on all of them.
-- - Decoder (src/video/ffmpeg/threaded_decoder.cc, src/video/ffmpeg/threaded_decoder.h):
--   `FFMPEGThreadedDecoder`. Queue is the interface of the blocking queues of dmlc-core and Lines an
--   instance of it, State the fields with the place where the thread stands (`Place`), Worker the
--   thread (`WorkerThread`, `WorkerThreadImpl`, `ProcessFrame`), Client the calls of the owner,
--   Picture `CopyToNDArray`, `AsNDArray` and `ToDLTensor` of src/video/ffmpeg/ffmpeg_common.h. Steps
--   has the relation of the steps of both and the invariant; Live, Counts, Stops, Rest, Owner and
--   Reached prove it, Packed is about pictures.
-- - Nvdec (src/video/nvcodec): Format is src/video/nvcodec/cuda_decoder_impl.cc, Textures
--   src/video/nvcodec/cuda_texture.cc and Decoder src/video/nvcodec/cuda_threaded_decoder.cc, whose
--   parser calls back into it. `Driver`, `Cuda` and `Nv` are the interfaces of NVCUVID and CUDA.
--   Setup, Cache, Draining and Drained have the proofs.
-- - Audio (src/audio/audio_reader.cc, src/audio/audio_reader.h): `AudioReader`. State has its fields and
--   `Media`, the interface of FFmpeg's demuxer, decoder and resampler; Save has `SaveToVector`, Decode
--   `Decode` with what it calls, Output `ToNDArray` and the constructor. Rows, Ends, Frames and Totals
--   lead to what decoding a file leaves, Mono and Planar are about the array.
-- - Avio (src/video/ffmpeg/ffmpeg_common.h): `AVIOBytesContext`, the file in memory that the audio
--   reader and the video reader hand to FFmpeg; Reads is about seeking and reading.
-- - Scope (src/runtime/thread_storage_scope.h): the storage scopes (Text) and the thread axes of a launch
--   (Axes).
-- - Storage (src/video/storage_pool.cc, src/video/storage_pool.h): `NDArrayPool`, which recycles the arrays
--   of frames; Kept says where its arrays are.
-- - Threads (src/runtime/thread_pool.cc): Spsc is `SpscTaskQueue`, the queue to one worker, with Held,
--   Pushes, Claims, Pops and Order on its states; Barrier is `PELIBackendParallelBarrier`, with
--   Watching and Meet on it; Launcher is `ParallelLauncher`, with Grow on its page of counters, and
--   Launch `Launch` with what `RunWorker` signals, by the order in which the tasks end, with Finish
--   on it.
-- - Base: native numbers, lists that they index, integers, outcomes and permutations.
--
-- A function that may throw (`CHECK`, `LOG(FATAL)`) returns an `Outcome`: `ok`, `fatal`, or
-- `diverges` where a loop does not end within the fuel that it is given. The loop of the ordered
-- samplers gets as many rounds as the range has frames, which is enough for a batch size of at
-- least 1, since each round moves on by at least one frame. A loop of the reader gets `feed` rounds
-- to find a packet of the stream and `fuel` rounds to get a frame; the theorems take both above the
-- bounds `gap` and `wait` of the stream, which the laws of an intact file state.
--
-- The loops of the audio reader get `packets` rounds for the packets, `frames` for the frames of one and
-- `flushes` for the resampler; the interface bounds them by what the file, the decoder and the
-- resampler hold, and the theorems take the rounds above these bounds. A join of a thread gets as
-- many rounds as the thread takes steps; `weight` bounds them from where it stands.
--
-- The threads of the queue, the barrier and the decoders are taken apart into steps, and an order of
-- their actions is a sequence of steps. A step of the queue or the barrier is one access of a
-- variable that both threads see. A step of a decoder's thread may take from one queue and push to
-- another; a frame that is pushed is counted by a further step, and the three stores of the handler of
-- an error are a step each. A call of a decoder's owner is one step, except `Pop` of the decoder on
-- the processor, which takes its frame and counts it in two, `Push` of the one on the hardware, and
-- `Stop`, whose wait runs the thread's steps. `pending_` of the thread pool's queue is a byte, and
-- wraps as written.
--
-- `int` and `int64_t` are integers without a bound, for values that do not overflow; the `size_t`
-- arithmetic of the workspace's rounding wraps as written. A `pts` of a frame is the `int` that
-- `NDArray` has. The buffer that `GetBatch` makes starts with zeros; its first contents are not
-- read.
--
-- The theorems on an intact file take the index of the file as `Indexed`: every frame's pts leads to
-- that frame, and the keyframes ascend from frame 0. `std::sort` leaves the order of equal times open;
-- the model has one order of them, and no theorem states which.
--
-- Not modelled: the constructor and the stream selection of the video reader and the decoders' set-up,
-- which are calls of FFmpeg and CUDA; the times of the audio reader, which are floats; the messages of
-- errors; the filter graph; `AutoReleasePool`; the affinity of the workers; the runtime's registry and
-- modules; the CUDA kernels and the Python bindings.
pub mod Base
pub mod Workspace
pub mod Sampler
pub mod Reader
pub mod Loader
pub mod Avio
pub mod Audio
pub mod Decoder
pub mod Scope
pub mod Threads
pub mod Storage
pub mod Nvdec
